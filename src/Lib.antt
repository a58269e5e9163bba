-- ===== src/Lib.antt =====
-- TIpcie: the user library of the trigger interface on a PCI express card (TIpcieLib.c with
-- TIpcieLib.h).
--
-- The library opens the card, keeps a pointer to its registers in a global variable, and
-- configures triggers, fibers, clocks and the synchronisation of crates by reading and writing
-- registers, each function under one mutex. A polling thread waits for blocks of events, calls
-- the user's routine for each, and acknowledges it; the routine reads the block from the card's
-- FIFO or from the DMA memory, and makes a trigger bank of it.
--
-- Machine is the machine model. World is the record of the global variables (Globals) and the
-- log of the accesses, the newest first; M is the state monad on it. The card, its JTAG chain
-- and the DMA memory are not in the repository: Device is a parameter, whose answers may depend
-- on every access so far. tipRead and tipWrite reduce their value modulo 2^32. Machine/Reg has
-- the registers by their byte offset, Machine/Macro the macros TIP_... of TIpcieLib.h,
-- Machine/Lock the discipline of the mutex, and Machine/Registers registers that keep what is
-- written to them. An int is an integer (Prelude/Int) whose conversion to unsigned int is
-- written out.
--
-- Block: tipGetNextBlockLevel to tipGetInstantBlockLevelChange of TIpcieLib.c.
-- Buffer: tipSetBlockBufferLevel, tipSetBlockLimit, tipBReady and the sync event flags.
-- Crate: tipSetCrateID, tipGetCrateID and what slaves report, tipReset, tipClockResync.
-- Trigger: tipSetTriggerSource to tipForceSendTriggerSourceEnable.
-- Pulser: tipSoftTrig, tipSetRandomTrigger, prescales and the shape of trigger pulses.
-- Sync: tipSetSyncSource, tipSyncReset, tipClockReset, tipTrigLinkReset, the event counter.
-- Holdoff: the trigger rules. Window: tipSetTriggerWindow to tipSetTriggerLatchOnLevel. Table:
-- the trigger table, from tipTriggerTableConfig to tipLoadTriggerTable. Scalers: live time and
-- counters. History: sync codes and their history. SyncEvents: the sync event interval and sync
-- reset requests. FiberFifo: tipReadFiberFifo. Delays: tipSetTSInputDelay. Slave:
-- tipSetSlavePort, what a master sees of its fibers, resets of single parts, tipBlockStatus.
-- Inputs: tipEnableTSInput, tipSetOutputPort, tipSetEventFormat.
-- Fiber: tipEnableFiber, tipSetBusySource, tipSetTriggerLock, tipAddSlave, tipSetClockSource.
-- Latency: FiberMeas. Setup: tipOpen, tipClose, tipDmaConfig. Init: tipInit.
-- Format: the kinds of words in a block; Format/Block describes a block as data, Format/Reads
-- lists of words in an array.
-- Fifo and Dma: the two branches of tipReadBlock. Readout: tipReadBlock, tipReadTriggerBlock,
-- tipGenerateTriggerBank.
-- Check: tipCheckTriggerBlock. Decode: tipDecodeTriggerType.
-- Interrupt: tipIntConnect, tipIntEnable, tipIntAck and the turns of tipPoll.
-- Calls: the library's calls as data, so that a program is a list of them. Threads: several such
-- programs at once, as a step relation on the mutex and each thread's accesses. Interrupt/Trace
-- says what the polling loop and a user's routine leave in the log.
-- Driver: the kernel driver's list of DMA buffers (linux_driver/TIpcie.c, TIpcieAllocDmaBuf to
-- TIpcieFreeDmaHandles, the last of which nothing calls) as linked handles in a heap;
-- Driver/Handles holds the linked list against a list of addresses. Ioctl: the requests of
-- TIpcie_ioctl.
-- Modules named Idle show for the functions of their parent that the mutex is used as it should
-- be, modules named Closed that they leave the card alone while it is not open; Tests holds
-- concrete runs.
--
-- Bounds and fuel. A try for an event header has the 20 retries of the code, and the wait for
-- DMA data its 1000 rounds. tipDecodeTriggerType looks at no more words than the data has, which
-- is its fuel, since each turn moves on by a word. The driver's loops over the list of handles
-- have fuel for more turns than the list is long. tipPrintSyncHistory has fuel for 1026 turns,
-- one more than the code allows. tipReadFiberFifo has as many turns as the array has words. The
-- polling loop is cut into its first n turns, for every n. A caller's array is a function of the
-- index; how long it is the code is not told.
--
-- Left out: messages; the functions that only print (tipStatus and the like); creating and
-- cancelling threads, and what they do to each other's global variables while a call runs
-- (Threads lets each call start from any values of them); requests to the kernel driver, the
-- transceiver's serial numbers. Not modelled are TIpcieConfig.cpp, which copies an INI file to
-- calls of this library, the rest of the kernel driver, which sets up the card by calls of the
-- kernel, the firmware updater, the readout lists and the test programs. INIReader.h is another
-- project's library. Not among the Calls are: tipInit, which writes registers without the mutex;
-- tipClose, after which the registers are not mapped; tipBlockStatus, which reads without the
-- mutex; tipReadFiberFifo and tipGetGTPBufferLength, which do not check that the card is open.
pub mod Prelude
pub mod Bits
pub mod Machine
pub mod Block
pub mod Buffer
pub mod Crate
pub mod Trigger
pub mod Pulser
pub mod Sync
pub mod Inputs
pub mod Fiber
pub mod Format
pub mod Fifo
pub mod Dma
pub mod Readout
pub mod Check
pub mod Decode
pub mod Setup
pub mod Latency
pub mod Interrupt
pub mod Init
pub mod Holdoff
pub mod Table
pub mod Window
pub mod Scalers
pub mod History
pub mod SyncEvents
pub mod FiberFifo
pub mod Delays
pub mod Slave
pub mod Calls
pub mod Threads
pub mod Driver
pub mod Ioctl
pub mod Tests
