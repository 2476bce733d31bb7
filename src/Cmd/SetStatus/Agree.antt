-- ===== src/Cmd/SetStatus/Agree.antt =====
-- The two programs do the same.
use silkoroutine.Common.{
  ℕ, zero, suc, Bool, true, false, List, Option, none, some, Option-cases, Bool-cases, ◌≡◌, inl,
  inr, refl, ap, ◌∙◌, if◌then◌else◌, pos, negsuc,
}
use silkoroutine.Remote.{StatusData}
use silkoroutine.Cmd.ChainConfig.{lookup_chain_config}
use silkoroutine.Cmd.ChainConfig.Same.{copy, lookup_async}
use mathlib.Core.Option
use silkoroutine.Cmd.SetStatus.{
  hard_forks, Flags, Exit, exited, terminated, is_rejected, request, main, main_async, send, finish,
}
use silkoroutine.Cmd.SetStatus.Outcomes.{main-request, main_async-request}

-- The exit of the asynchronous program for that of the other one: -1 stands for a call that went
-- wrong.
abbrev pub exit_async : Exit → Exit
exit_async (exited (pos zero)) = exited (pos zero)
exit_async (exited (pos (suc n))) = exited (negsuc 0)
exit_async (exited (negsuc n)) = exited (negsuc n)
exit_async (terminated e) = terminated e

-- A pair of runs that sent the same, and ended alike.
abbrev pub Agree : Exit × List StatusData → Exit × List StatusData → Type 0
Agree x y = (y.1 ≡ x.1) × (y.0 ≡ exit_async x.0)

module _ (set_status : StatusData → Bool) (queue_next : StatusData → Option ℕ)
    (finishes : (r : StatusData) → queue_next r ≡ some 1) where
  finish-Agree :
      (o : Option StatusData) → Agree (send set_status o) (finish set_status queue_next o)
  unfolding send finish
  finish-Agree none = (refl, refl)
  finish-Agree (some r) = rw (finishes r) (refl, by_result (set_status r))
    where
      by_result :
          (b : Bool)
          → (if b then exited (pos 0) else exited (negsuc 0))
            ≡ exit_async (if b then exited (pos 0) else exited (pos 1))
      by_result true = refl
      by_result false = refl

  -- For all flags, and a completion queue that gives the tag of `Finish` for each request: both
  -- programs send the same requests, if any, and they end alike, by the same exit code or the same
  -- exception. Only a call that went wrong ends the one with 1 and the other with -1.
  pub main_async-Agree :
      (f : Flags) → Agree (main set_status f) (main_async set_status queue_next f)
  unfolding main main_async
  main_async-Agree f =
      let same = lookup_async f.chainid in
      elim (Option-cases (lookup_chain_config f.chainid)) [
        | inl e ↦ rw (e, main) (rw (same ∙ ap (Option.map copy) e, main_async) (refl, refl))
        | inr (c, e) ↦ elim (Bool-cases (is_rejected f)) [
          | inl b ↦
              rw (e, main) (rw (same ∙ ap (Option.map copy) e, main_async) (rw b (refl, refl)))
          | inr b ↦
              rw (main-request set_status f b c e, main_async-request set_status f b queue_next c e)
                (finish-Agree (request f c.genesis_hash (hard_forks c)))
        ]
      ]
