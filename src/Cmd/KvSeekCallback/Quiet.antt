-- ===== src/Cmd/KvSeekCallback/Quiet.antt =====
-- What is outstanding while the program runs: one operation at most, which has its callback.
use silkoroutine.Common.{
  ℕ, Bool, true, false, ◌&&◌, Bytes, Option, none, some, ◌≡◌, ◌≢◌, refl, Bool-cases, inl, inr,
  if◌then◌else◌,
}
use silkoroutine.Remote.{Pair}
use silkoroutine.Cmd.KvSeekCallback.{
  WriteCallback, open_written, seek_written, close_written, ReadCallback, open_read, close_read,
  seek_read, Reactor, Event, write_done, read_done, signal, Next, comes, impossible, threw, happen,
  deliver, written, received, on_write_done, on_read_done, on_signal,
}

abbrev pub Holds : (Reactor → Type 0) → Next Reactor → Type 0
Holds P (comes r) = P r
Holds P impossible = Unit
Holds P threw = ⊥

Holds-if :
    (P : Reactor → Type 0) (b : Bool) (o : Next Reactor)
    → (b ≡ false → Holds P o)
    → Holds P (if b then impossible else o)
Holds-if P true o h = tt
Holds-if P false o h = h refl

-- At most one operation is outstanding, and there is a callback for it.
unfoldable pub IsQuiet : Reactor → Type 0
IsQuiet r =
    ((r.reading && r.writing) ≡ false)
    × (r.reading ≡ true → r.read_completed ≢ none)
    × (r.writing ≡ true → r.write_completed ≢ none)

-- Nothing is outstanding, and the context is not stopped.
unfoldable pub IsStuck : Reactor → Type 0
IsStuck r = (r.reading ≡ false) × (r.writing ≡ false) × (r.stopped ≡ false)

-- An operation of gRPC that fails.
abbrev pub IsFailure : Event → Type 0
IsFailure (write_done ok) = ok ≡ false
IsFailure (read_done p) = p ≡ none
IsFailure (signal what n) = ⊥

idle-IsQuiet : (r : Reactor) → r.reading ≡ false → r.writing ≡ false → IsQuiet r
unfolding IsQuiet
idle-IsQuiet r hr hw = (simp hr refl, (λ h. cc), λ h. cc)

signal-IsQuiet : (what : Bytes) (n : ℕ) (r : Reactor) → IsQuiet r → IsQuiet (on_signal what n r)
unfolding IsQuiet
signal-IsQuiet what n r q = q

module _ (table key : Bytes) where
  written-IsQuiet :
      (c : WriteCallback) (ok : Bool) (r : Reactor)
      → r.reading ≡ false
      → r.writing ≡ false
      → IsQuiet (written table key c ok r)
  unfolding IsQuiet written
  written-IsQuiet open_written false r hr hw = idle-IsQuiet r hr hw
  written-IsQuiet open_written true r hr hw = (hw, (λ h e. cc e), λ h. cc)
  written-IsQuiet (seek_written id) false r hr hw = idle-IsQuiet r hr hw
  written-IsQuiet (seek_written id) true r hr hw = (hw, (λ h e. cc e), λ h. cc)
  written-IsQuiet (close_written id) false r hr hw = idle-IsQuiet r hr hw
  written-IsQuiet (close_written id) true r hr hw = (hw, (λ h e. cc e), λ h. cc)

  received-IsQuiet :
      (c : ReadCallback) (ok : Bool) (p : Pair) (r : Reactor)
      → r.reading ≡ false
      → r.writing ≡ false
      → IsQuiet (received key c ok p r)
  unfolding IsQuiet received
  received-IsQuiet open_read false p r hr hw = idle-IsQuiet r hr hw
  received-IsQuiet open_read true p r hr hw = (simp hr refl, (λ h. cc), λ h e. cc e)
  received-IsQuiet (seek_read id) false p r hr hw = idle-IsQuiet r hr hw
  received-IsQuiet (seek_read id) true p r hr hw = (simp hr refl, (λ h. cc), λ h e. cc e)
  received-IsQuiet close_read false p r hr hw = idle-IsQuiet r hr hw
  received-IsQuiet close_read true p r hr hw = idle-IsQuiet r hr hw

  written-IsStuck :
      (c : WriteCallback) (r : Reactor)
      → r.reading ≡ false
      → r.writing ≡ false
      → r.stopped ≡ false
      → IsStuck (written table key c false r)
  unfolding IsStuck written
  written-IsStuck open_written r hr hw hs = (hr, hw, hs)
  written-IsStuck (seek_written id) r hr hw hs = (hr, hw, hs)
  written-IsStuck (close_written id) r hr hw hs = (hr, hw, hs)

  received-IsStuck :
      (c : ReadCallback) (p : Pair) (r : Reactor)
      → r.reading ≡ false
      → r.writing ≡ false
      → r.stopped ≡ false
      → IsStuck (received key c false p r)
  unfolding IsStuck received
  received-IsStuck open_read p r hr hw hs = (hr, hw, hs)
  received-IsStuck (seek_read id) p r hr hw hs = (hr, hw, hs)
  received-IsStuck close_read p r hr hw hs = (hr, hw, hs)

  on_write_done-IsQuiet :
      (ok : Bool) (o : Option WriteCallback) (r : Reactor)
      → o ≢ none
      → r.reading ≡ false
      → r.writing ≡ false
      → Holds IsQuiet (on_write_done table key ok o r)
  on_write_done-IsQuiet ok none r n hr hw = n refl
  on_write_done-IsQuiet ok (some c) r n hr hw = written-IsQuiet c ok r hr hw

  on_read_done-IsQuiet :
      (ok : Bool) (o : Option ReadCallback) (r : Reactor)
      → o ≢ none
      → r.reading ≡ false
      → r.writing ≡ false
      → Holds IsQuiet (on_read_done key ok o r)
  on_read_done-IsQuiet ok none r n hr hw = n refl
  on_read_done-IsQuiet ok (some c) r n hr hw = received-IsQuiet c ok r.pair r hr hw

  on_write_done-IsStuck :
      (o : Option WriteCallback) (r : Reactor)
      → o ≢ none
      → r.reading ≡ false
      → r.writing ≡ false
      → r.stopped ≡ false
      → Holds IsStuck (on_write_done table key false o r)
  on_write_done-IsStuck none r n hr hw hs = n refl
  on_write_done-IsStuck (some c) r n hr hw hs = written-IsStuck c r hr hw hs

  on_read_done-IsStuck :
      (o : Option ReadCallback) (r : Reactor)
      → o ≢ none
      → r.reading ≡ false
      → r.writing ≡ false
      → r.stopped ≡ false
      → Holds IsStuck (on_read_done key false o r)
  on_read_done-IsStuck none r n hr hw hs = n refl
  on_read_done-IsStuck (some c) r n hr hw hs = received-IsStuck c r.pair r hr hw hs

  -- What an outstanding operation says of the other one, and of its callback.
  writing_alone :
      (r : Reactor)
      → IsQuiet r
      → r.writing ≡ true
      → (r.reading ≡ false) × (r.write_completed ≢ none)
  unfolding IsQuiet
  writing_alone r (q, _, k) h =
      (elim (Bool-cases r.reading) [ inl e ↦ cc (rw (e, h) at q) | inr e ↦ e ], k h)

  reading_alone :
      (r : Reactor) → IsQuiet r → r.reading ≡ true → (r.writing ≡ false) × (r.read_completed ≢ none)
  unfolding IsQuiet
  reading_alone r (q, k, _) h =
      (elim (Bool-cases r.writing) [ inl e ↦ cc (rw (e, h) at q) | inr e ↦ e ], k h)

  happen-IsQuiet : (e : Event) (r : Reactor) → IsQuiet r → Holds IsQuiet (happen table key e r)
  unfolding happen
  happen-IsQuiet (write_done ok) r q = elim (Bool-cases r.writing) [
    | inl h ↦ rw (h) (
        on_write_done-IsQuiet ok r.write_completed _ (writing_alone r q h).1 (writing_alone r q h).0
          refl)
    | inr h ↦ rw (h) tt
  ]
  happen-IsQuiet (read_done none) r q = elim (Bool-cases r.reading) [
    | inl h ↦ rw (h) (
        on_read_done-IsQuiet false r.read_completed _ (reading_alone r q h).1 refl
          (reading_alone r q h).0)
    | inr h ↦ rw (h) tt
  ]
  happen-IsQuiet (read_done (some p)) r q = elim (Bool-cases r.reading) [
    | inl h ↦ rw (h) (
        on_read_done-IsQuiet true r.read_completed _ (reading_alone r q h).1 refl
          (reading_alone r q h).0)
    | inr h ↦ rw (h) tt
  ]
  happen-IsQuiet (signal what n) r q = signal-IsQuiet what n r q

  pub deliver-IsQuiet :
      (e : Event) (r : Reactor) → IsQuiet r → Holds IsQuiet (deliver table key e r)
  unfolding deliver
  deliver-IsQuiet e r q =
      Holds-if IsQuiet r.stopped (happen table key e r) (λ hs. happen-IsQuiet e r q)

  happen-IsStuck :
      (e : Event) (r : Reactor)
      → IsQuiet r
      → IsFailure e
      → r.stopped ≡ false
      → Holds IsStuck (happen table key e r)
  unfolding happen
  happen-IsStuck (write_done true) r q f hs = cc
  happen-IsStuck (write_done false) r q f hs = elim (Bool-cases r.writing) [
    | inl h ↦ rw (h) (
        on_write_done-IsStuck r.write_completed _ (writing_alone r q h).1 (writing_alone r q h).0
          refl hs)
    | inr h ↦ rw (h) tt
  ]
  happen-IsStuck (read_done none) r q f hs = elim (Bool-cases r.reading) [
    | inl h ↦ rw (h) (
        on_read_done-IsStuck r.read_completed _ (reading_alone r q h).1 refl (reading_alone r q h).0
          hs)
    | inr h ↦ rw (h) tt
  ]
  happen-IsStuck (read_done (some p)) r q f hs = cc
  happen-IsStuck (signal what n) r q f hs = absurd f

  pub failure-IsStuck :
      (e : Event) (r : Reactor) → IsQuiet r → IsFailure e → Holds IsStuck (deliver table key e r)
  unfolding deliver
  failure-IsStuck e r q f =
      Holds-if IsStuck r.stopped (happen table key e r) (happen-IsStuck e r q f)
