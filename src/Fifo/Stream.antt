-- ===== src/Fifo/Stream.antt =====
-- The FIFO as a stream of words, of which each read of its register takes the next one; and the
-- reader's loops over a well-formed block in it.
use tipcie.Prelude.{
  ℕ, zero, suc, ◌+◌, ◌%◌, ◌^◌, ◌<◌, true, List, [], ◌∷◌, ◌++◌, ◌≡◌, refl, ◌∙◌, bit_and, arith,
  length, ◌==◌, if◌then◌else◌,
}
use tipcie.Bits.Fields.{and-ones}
use tipcie.Machine.{Device, read, Log, World}
use tipcie.Machine.Reg
use tipcie.Format.{Dest, put}
use tipcie.Format.Block.{Event as TriggerEvent, event_header, event_words, events_words, AreEvents}
use tipcie.Format.Reads.{Reads, Reads-append, put_all, put_all-append}
use tipcie.Format.Words.{is_event_header-true}
use tipcie.Fifo.{take_word, read_words, read_events}

-- How often the FIFO was read.
unfoldable pub fifo_reads : Log → ℕ
fifo_reads [] = 0
fifo_reads (read r v ∷ l) = if r == Reg.fifo then suc (fifo_reads l) else fifo_reads l
fifo_reads (_ ∷ l) = fifo_reads l

-- The card's FIFO gives out the words of a stream, one for each read.
abbrev pub Feeds : Device → (ℕ → ℕ) → Type 0
Feeds dev stream = (l : Log) → dev.answer l Reg.fifo % 2 ^ 32 ≡ stream (fifo_reads l)

-- The accesses of reading these words.
unfoldable pub pull : List ℕ → World → World
pull [] w = w
pull (x ∷ xs) w = pull xs (record w { log = read Reg.fifo x ∷ w.log })

pub pull-append : (xs ys : List ℕ) (w : World) → pull (xs ++ ys) w ≡ pull ys (pull xs w)
unfolding pull
pull-append [] ys w = refl
pull-append (x ∷ xs) ys w = pull-append xs ys (record w { log = read Reg.fifo x ∷ w.log })

pub fifo_reads-pull :
    (xs : List ℕ) (w : World) → fifo_reads (pull xs w).log ≡ fifo_reads w.log + length xs
unfolding pull fifo_reads
fifo_reads-pull [] w = omega arith
fifo_reads-pull (x ∷ xs) w =
    omega (arith, fifo_reads-pull xs (record w { log = read Reg.fifo x ∷ w.log }))

module _ (dev : Device) (stream : ℕ → ℕ) (feeds : Feeds dev stream) where
  pub take_word_lem :
      (x : ℕ) (d : Dest) (w : World)
      → stream (fifo_reads w.log) ≡ x
      → take_word dev d w ≡ ((x, put d x), pull (x ∷ []) w)
  unfolding take_word pull
  take_word_lem x d w h = rw (feeds w.log ∙ h)

  pub read_words_lem :
      (xs : List ℕ) (d : Dest) (w : World)
      → Reads stream (fifo_reads w.log) xs
      → read_words dev (length xs) d w ≡ (put_all xs d, pull xs w)
  unfolding read_words put_all pull fifo_reads
  read_words_lem [] d w h = refl
  read_words_lem (x ∷ xs) d w h =
      rw (take_word_lem x d w h.0)
        (read_words_lem xs (put d x) (record w { log = read Reg.fifo x ∷ w.log }) h.1)

  -- One turn of the loop takes one well-formed event, however many tries are left.
  read_events_step :
      (n left : ℕ) (e : TriggerEvent) (d : Dest) (w : World)
      → e.trigger_type < 2 ^ 8
      → suc (length e.rest) < 2 ^ 16
      → Reads stream (fifo_reads w.log) (event_words e)
      → read_events dev (suc n) left d w
        ≡ read_events dev n left (put_all (event_words e) d) (pull (event_words e) w)
  unfolding read_events put_all pull fifo_reads
  read_events_step n zero e d w ht hl h =
      let header : bit_and (event_header e) 0xffff ≡ suc (length e.rest) =
        omega (arith, and-ones 16 (event_header e)) in
      let w' : World = record w { log = read Reg.fifo (event_header e) ∷ w.log } in
      rw (
        take_word_lem (event_header e) d w h.0,
        is_event_header-true e.trigger_type (suc (length e.rest)) hl ht,
        header,
        read_words_lem (e.number ∷ e.rest) (put d (event_header e)) w' h.1,
      )
  read_events_step n (suc left) e d w ht hl h =
      let header : bit_and (event_header e) 0xffff ≡ suc (length e.rest) =
        omega (arith, and-ones 16 (event_header e)) in
      let w' : World = record w { log = read Reg.fifo (event_header e) ∷ w.log } in
      rw (
        take_word_lem (event_header e) d w h.0,
        is_event_header-true e.trigger_type (suc (length e.rest)) hl ht,
        header,
        read_words_lem (e.number ∷ e.rest) (put d (event_header e)) w' h.1,
      )

  pub read_events_lem :
      (es : List TriggerEvent) (left : ℕ) (d : Dest) (w : World)
      → AreEvents es
      → Reads stream (fifo_reads w.log) (events_words es)
      → read_events dev (length es) left d w
        ≡ ((true, put_all (events_words es) d), pull (events_words es) w)
  unfolding read_events put_all pull
  read_events_lem [] zero d w ok h = refl
  read_events_lem [] (suc left) d w ok h = refl
  read_events_lem (e ∷ es) left d w ok h =
      let r = Reads-append stream (fifo_reads w.log) (event_words e) (events_words es) h in
      let ws = event_words e in
      read_events_step (length es) left e d w ok.0 ok.1 r.0
      ∙ read_events_lem es left (put_all ws d) (pull ws w) ok.2 (rw (fifo_reads-pull ws w) r.1)
      ∙ rw (put_all-append ws (events_words es) d, pull-append ws (events_words es) w)
