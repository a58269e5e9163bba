-- ===== src/Threads/Exclusion.antt =====
-- Threads that run library calls never touch the card at the same time.
use tipcie.Prelude.{
  ℕ, Bool, true, false, some, List, [], ◌∷◌, ◌==◌, if◌then◌else◌, ◌≡◌, refl, ap, sym, ◌∙◌,
  Bool-cases, inl, inr, arith,
}
use tipcie.Machine.{
  read, write, jtag_read, jtag_write, dma_read, lock, unlock, sleep, Event, Log, Device, Globals,
  World,
}
use tipcie.Machine.Lock.{held, disciplined}
use tipcie.Interrupt.{Routines}
use tipcie.Interrupt.Polling.{AreSafe}
use tipcie.Calls.{Call, run}
use tipcie.Calls.Idle.{run-KeepsIdle}
use tipcie.Threads.{System, Step, takes, gives, acts, Reach, here, next, is_other, append_log}

disciplined-tail : (e : Event) (l : Log) → disciplined (e ∷ l) ≡ true → disciplined l ≡ true
disciplined-tail (read r v) l h = ground arith
disciplined-tail (write r v) l h = ground arith
disciplined-tail (jtag_read r v) l h = ground arith
disciplined-tail (jtag_write r v) l h = ground arith
disciplined-tail (dma_read r v) l h = ground arith
disciplined-tail lock l h = ground arith
disciplined-tail unlock l h = ground arith
disciplined-tail (sleep n) l h = h

held-other : (e : Event) (l : Log) → is_other e ≡ true → held (e ∷ l) ≡ held l
held-other (read r v) l h = refl
held-other (write r v) l h = refl
held-other (jtag_read r v) l h = refl
held-other (jtag_write r v) l h = refl
held-other (dma_read r v) l h = refl
held-other lock l h = ground arith
held-other unlock l h = ground arith
held-other (sleep n) l h = refl

AllDisciplined : System → Type 0
AllDisciplined s = (t : ℕ) → disciplined (s.logs t) ≡ true

append_log-disciplined :
    (t : ℕ) (e : Event) (logs : ℕ → Log)
    → ((u : ℕ) → disciplined (append_log t e logs u) ≡ true)
    → (u : ℕ) → disciplined (logs u) ≡ true
append_log-disciplined t e logs all u = elim (Bool-cases (u == t)) [
  | inl own ↦
      disciplined-tail e (logs u)
        ((ap (λ (b : Bool). disciplined (if b then e ∷ logs u else logs u)) (sym own)) ∙ all u)
  | inr apart ↦
      (ap (λ (b : Bool). disciplined (if b then e ∷ logs u else logs u)) (sym apart)) ∙ all u
]

-- A thread holds the mutex only as its owner.
OwnerHolds : System → Type 0
OwnerHolds s = (t : ℕ) → held (s.logs t) ≡ true → s.owner ≡ some t

Step-AllDisciplined : {s u : System} → Step s u → AllDisciplined u → AllDisciplined s
unfolding AllDisciplined
Step-AllDisciplined (takes s t free) all = append_log-disciplined t lock s.logs all
Step-AllDisciplined (gives s t) all = append_log-disciplined t unlock s.logs all
Step-AllDisciplined (acts s t e other) all = append_log-disciplined t e s.logs all

-- The log of the thread that acts, and of the others.
own_log : (t : ℕ) (e : Event) (logs : ℕ → Log) → append_log t e logs t ≡ e ∷ logs t
own_log t e logs = let same : (t == t) ≡ true = ground arith in rw same refl

Step-OwnerHolds : {s u : System} → Step s u → AllDisciplined u → OwnerHolds s → OwnerHolds u
unfolding OwnerHolds AllDisciplined
Step-OwnerHolds (takes s t free) all holds v h = elim (Bool-cases (v == t)) [
  | inl own ↦ let e : v ≡ t = ground arith in ap some (sym e)
  | inr apart ↦
      let before =
        holds v
          (ap (λ (b : Bool). held (if b then lock ∷ s.logs v else s.logs v)) (sym apart) ∙ h) in
      absurd (ground (arith, before, free))
]
Step-OwnerHolds (gives s t) all holds v h =
    let mine = holds t (ground (arith, (ap disciplined (sym (own_log t unlock s.logs))) ∙ all t)) in
    elim (Bool-cases (v == t)) [
      | inl own ↦
          let freed =
            ap (λ (b : Bool). held (if b then unlock ∷ s.logs v else s.logs v)) (sym own) ∙ h in
          absurd (ground (arith, freed))
      | inr apart ↦
          let before =
            holds v (
              ap (λ (b : Bool). held (if b then unlock ∷ s.logs v else s.logs v)) (sym apart)
              ∙ h) in
          absurd (ground (arith, before, mine))
    ]
Step-OwnerHolds (acts s t e other) all holds v h = elim (Bool-cases (v == t)) [
  | inl own ↦
      let after = ap (λ (b : Bool). held (if b then e ∷ s.logs v else s.logs v)) (sym own) ∙ h in
      holds v (sym (held-other e (s.logs v) other) ∙ after)
  | inr apart ↦
      holds v (ap (λ (b : Bool). held (if b then e ∷ s.logs v else s.logs v)) (sym apart) ∙ h)
]

Reach-OwnerHolds : {s : System} → Reach s → AllDisciplined s → OwnerHolds s
unfolding OwnerHolds
Reach-OwnerHolds here all t h = absurd (ground arith)
Reach-OwnerHolds (next r st) all t h =
    Step-OwnerHolds st all (Reach-OwnerHolds r (Step-AllDisciplined st all)) t h

-- The first accesses of a longer log; the newest come first in a log.
pub data IsTail : Log → Log → Type 0 where
  whole : (l : Log) → IsTail l l
  later : {l m : Log} (e : Event) → IsTail l m → IsTail l (e ∷ m)

IsTail-disciplined : {l m : Log} → IsTail l m → disciplined m ≡ true → disciplined l ≡ true
IsTail-disciplined (whole l) h = h
IsTail-disciplined (later {m} e tail) h = IsTail-disciplined tail (disciplined-tail e m h)

-- What a thread runs: a list of library calls, each with the library's variables as it finds them,
-- what the card answers to this thread, and what the user's routines do.
pub record Program : Type 0 where
  pub card : Device
  pub user : Routines
  pub safe : AreSafe user
  pub calls : List (Globals × Call)

-- The accesses of the calls, after those of a log.
abbrev pub calls_log : Device → Routines → List (Globals × Call) → Log → Log
calls_log dev user [] l = l
calls_log dev user ((g, c) ∷ cs) l =
    calls_log dev user cs (run dev user c (record { lib = g; log = l })).1.log

abbrev pub full_log : Program → Log
full_log p = calls_log p.card p.user p.calls []

calls_log-disciplined :
    (dev : Device) (user : Routines)
    → AreSafe user
    → (cs : List (Globals × Call)) (l : Log) → held l ≡ false
    → disciplined l ≡ true
    → disciplined (calls_log dev user cs l) ≡ true
calls_log-disciplined dev user safe [] l free clean = clean
calls_log-disciplined dev user safe ((g, c) ∷ cs) l free clean =
    let start : World = record { lib = g; log = l } in
    let after = run-KeepsIdle dev user safe c start (record { free = free; clean = clean }) in
    calls_log-disciplined dev user safe cs _ after.free after.clean

-- An access to the card or to the DMA memory.
abbrev pub is_touch : Event → Bool
is_touch (read r v) = true
is_touch (write r v) = true
is_touch (jtag_read r v) = true
is_touch (jtag_write r v) = true
is_touch (dma_read r v) = true
is_touch lock = false
is_touch unlock = false
is_touch (sleep n) = false

touch-held : (e : Event) (l : Log) → is_touch e ≡ true → disciplined (e ∷ l) ≡ true → held l ≡ true
touch-held (read r v) l touch h = ground arith
touch-held (write r v) l touch h = ground arith
touch-held (jtag_read r v) l touch h = ground arith
touch-held (jtag_write r v) l touch h = ground arith
touch-held (dma_read r v) l touch h = ground arith
touch-held lock l touch h = absurd (ground arith)
touch-held unlock l touch h = absurd (ground arith)
touch-held (sleep n) l touch h = absurd (ground arith)

-- Let threads each run a list of calls that Call has, with their accesses interleaved in any way
-- that the mutex allows, and stop them at any moment. No two threads are then both about to touch
-- the card or the DMA memory, and the one that is owns the mutex. Each call may find the library's
-- variables as it likes, and the card may answer each thread as it likes, so also by what the other
-- threads do; within a call, the variables are the thread's own. The user's routines are assumed to
-- use the mutex as they should.
pub Reach-exclusive :
    (programs : ℕ → Program) (s : System)
    → Reach s
    → ((t : ℕ) → IsTail (s.logs t) (full_log (programs t)))
    → (a b : ℕ) (d e : Event) → is_touch d ≡ true
    → is_touch e ≡ true
    → IsTail (d ∷ s.logs a) (full_log (programs a))
    → IsTail (e ∷ s.logs b) (full_log (programs b))
    → (a ≡ b) × (s.owner ≡ some a)
unfolding OwnerHolds AllDisciplined
Reach-exclusive programs s r parts a b d e touch_a touch_b next_a next_b =
    let clean = λ (t : ℕ).
      let p = programs t in calls_log-disciplined p.card p.user p.safe p.calls [] refl refl in
    let all = λ (t : ℕ). IsTail-disciplined (parts t) (clean t) in
    let ha = touch-held d (s.logs a) touch_a (IsTail-disciplined next_a (clean a)) in
    let hb = touch-held e (s.logs b) touch_b (IsTail-disciplined next_b (clean b)) in
    let of_a = Reach-OwnerHolds r all a ha in
    let of_b = Reach-OwnerHolds r all b hb in (ground arith, of_a)
