-- ===== src/Cmd/KvSeekCallback/Hangs.antt =====
-- When `main` ends: `context.run()` returns only after `context.stop()`.
use silkoroutine.Common.{
  ap, ◌∙◌, pos, true, ℕ, Bytes, List, [], ◌∷◌, ◌++◌, none, some, ◌≡◌, ◌≢◌, refl,
}
use silkoroutine.Remote.{Pair}
use silkoroutine.Cmd.KvFlags.{Flags, check_timeout}
use silkoroutine.Cmd.KvSeek.Outcomes.{requests}
use silkoroutine.Cmd.KvSeekCallback.{
  Reactor, Event, write_done, read_done, signal, Next, comes, impossible, threw, happen, deliver,
  deliver_all, started, main, returned, written, received, on_signal, after,
}
use silkoroutine.Cmd.KvSeekCallback.Quiet.{
  Holds, IsQuiet, IsStuck, IsFailure, deliver-IsQuiet, failure-IsStuck,
}

-- An event of gRPC.
abbrev pub IsGrpc : Event → Type 0
IsGrpc (write_done ok) = Unit
IsGrpc (read_done p) = Unit
IsGrpc (signal what n) = ⊥

module _ (table key : Bytes) where
  -- gRPC has nothing to deliver any more, and a signal stops the context.
  deliver-stuck :
      (e : Event) (r : Reactor) → IsStuck r → IsGrpc e → deliver table key e r ≡ impossible
  unfolding deliver happen IsStuck
  deliver-stuck (write_done ok) r (hr, hw, hs) g = simp (hs, hw) refl
  deliver-stuck (read_done none) r (hr, hw, hs) g = simp (hs, hr) refl
  deliver-stuck (read_done (some p)) r (hr, hw, hs) g = simp (hs, hr) refl
  deliver-stuck (signal what n) r h g = absurd g

  deliver-signal :
      (what : Bytes) (n : ℕ) (r : Reactor)
      → IsStuck r
      → deliver table key (signal what n) r ≡ comes (on_signal what n r)
  unfolding deliver happen IsStuck
  deliver-signal what n r (hr, hw, hs) = simp hs refl

  after-after :
      (f g h : Reactor → Next Reactor) (o : Next Reactor)
      → ((r : Reactor) → f r ≡ after g (h r))
      → after f o ≡ after g (after h o)
  after-after f g h (comes r) e = e r
  after-after f g h impossible e = refl
  after-after f g h threw e = refl

  deliver_all-append :
      (es fs : List Event) (r : Reactor)
      → deliver_all table key (es ++ fs) r
        ≡ after (deliver_all table key fs) (deliver_all table key es r)
  unfolding deliver_all
  deliver_all-append [] fs r = refl
  deliver_all-append (e ∷ es) fs r =
      after-after (deliver_all table key (es ++ fs)) (deliver_all table key fs)
        (deliver_all table key es) (deliver table key e r) (deliver_all-append es fs)

  Holds-after :
      (P Q : Reactor → Type 0) (f : Reactor → Next Reactor) (o : Next Reactor)
      → Holds P o
      → ((r : Reactor) → P r → Holds Q (f r))
      → Holds Q (after f o)
  Holds-after P Q f (comes r) p k = k r p
  Holds-after P Q f impossible p k = tt
  Holds-after P Q f threw p k = p

  failure_at :
      (es : List Event) (e : Event) (r : Reactor)
      → IsFailure e
      → IsQuiet r
      → Holds IsStuck (deliver_all table key (es ++ e ∷ []) r)
  unfolding deliver_all
  failure_at [] e r f q =
      Holds-after IsStuck IsStuck (deliver_all table key []) (deliver table key e r)
        (failure-IsStuck table key e r q f) (λ t h. h)
  failure_at (d ∷ es) e r f q =
      Holds-after IsQuiet IsStuck (deliver_all table key (es ++ e ∷ [])) (deliver table key d r)
        (deliver-IsQuiet table key d r q) (λ t h. failure_at es e t f h)

  started-IsQuiet : IsQuiet (started table)
  unfolding IsQuiet
  started-IsQuiet = (refl, (λ h. cc), λ h e. cc e)

  abbrev answered : Pair → Pair → Pair → List Event
  answered p q r =
      write_done true
      ∷ read_done (some p)
      ∷ write_done true
      ∷ read_done (some q)
      ∷ write_done true
      ∷ read_done (some r)
      ∷ []

  answered_end :
      (p q r : Pair)
      → (t : Reactor) × (deliver_all table key (answered p q r) (started table) ≡ comes t)
        × (t.stopped ≡ true)
        × (t.sent ≡ requests table key p)
  unfolding deliver_all deliver happen written received
  answered_end p q r = (_, refl, refl, refl)

main-some :
    (f : Flags) (key : Bytes) (es : List Event)
    → check_timeout f ≡ some key
    → main f es ≡ returned (deliver_all f.table key es (started f.table))
unfolding main
main-some f key es h = rw (h, main) refl

-- What becomes of a run that has come to `o`.
abbrev HangsAt : Bytes → Bytes → Next Reactor → Type 0
HangsAt table key o =
    (returned o ≡ comes none)
    × ((d : Event) (fs : List Event)
        → IsGrpc d
        → returned (after (deliver_all table key (d ∷ fs)) o) ≡ impossible)
    × ((what : Bytes) (n : ℕ)
        → returned (after (deliver_all table key (signal what n ∷ [])) o) ≡ comes (some (pos 0)))

stuck-HangsAt :
    (table key : Bytes) (o : Next Reactor) → Holds IsStuck o → o ≢ impossible → HangsAt table key o
unfolding deliver_all IsStuck
stuck-HangsAt table key impossible h n = absurd (n refl)
stuck-HangsAt table key threw h n = absurd h
stuck-HangsAt table key (comes r) h n = (
  rw (h.2) refl,
  (λ d fs g. rw (deliver-stuck table key d r h g) refl),
  λ what n. rw (deliver-signal table key what n r h) refl,
)

-- With good flags, and any events that can come in this order, of which the last is an operation of
-- gRPC that fails: the program waits. It has no operation of gRPC under way any more, so that
-- neither callback of its reactor can be called, and if a signal comes next it returns 0.
pub failure_hangs :
    (f : Flags) (key : Bytes) (es : List Event) (e : Event)
    → check_timeout f ≡ some key
    → IsFailure e
    → deliver_all f.table key (es ++ e ∷ []) (started f.table) ≢ impossible
    → (main f (es ++ e ∷ []) ≡ comes none)
      × ((d : Event) (fs : List Event) → IsGrpc d → main f ((es ++ e ∷ []) ++ d ∷ fs) ≡ impossible)
      × ((what : Bytes) (n : ℕ)
          → main f ((es ++ e ∷ []) ++ signal what n ∷ []) ≡ comes (some (pos 0)))
failure_hangs f key es e h bad possible =
    let o = deliver_all f.table key (es ++ e ∷ []) (started f.table) in
    let (waits, quiet, ends) =
      stuck-HangsAt f.table key o
        (failure_at f.table key es e (started f.table) bad (started-IsQuiet f.table key))
        possible in
    let more = λ (fs : List Event).
      main-some f key ((es ++ e ∷ []) ++ fs) h
      ∙ ap returned (deliver_all-append f.table key (es ++ e ∷ []) fs (started f.table)) in
    (
      main-some f key (es ++ e ∷ []) h ∙ waits,
      (λ d fs g. more (d ∷ fs) ∙ quiet d fs g),
      λ what n. more (signal what n ∷ []) ∙ ends what n,
    )

-- With good flags and operations that all go well, the program returns 0 after six events, and its
-- messages are those that the blocking program sends.
answered_stops :
    (f : Flags) (key : Bytes) (p q r : Pair)
    → check_timeout f ≡ some key
    → (main f (answered f.table key p q r) ≡ comes (some (pos 0)))
      × ((t : Reactor) × (deliver_all f.table key (answered f.table key p q r) (started f.table)
            ≡ comes t)
          × (t.sent ≡ requests f.table key p))
answered_stops f key p q r h =
    let (t, run, stopped, sent) = answered_end f.table key p q r in
    (main-some f key _ h ∙ rw (run, stopped) refl, (t, run, sent))
