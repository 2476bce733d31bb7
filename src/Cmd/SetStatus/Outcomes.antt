-- ===== src/Cmd/SetStatus/Outcomes.antt =====
-- How the two programs end, for each chain.
use silkoroutine.Common.{
  ℕ, Bool, true, false, List, [], ◌∷◌, Option, none, some, Option-cases, Bool-cases, ◌≡◌, ◌⊎◌, inl,
  inr, refl, ap, ◌∙◌, arith, length, if◌then◌else◌, pos,
}
use silkoroutine.Kv.World.{bad_optional_access}
use silkoroutine.Cmd.ChainConfig.{
  ChainConfig, lookup_chain_config, mainnet_config, ropsten_config, goerli_config,
  classic_mainnet_config,
}
use silkoroutine.Cmd.ChainConfig.Async
use silkoroutine.Cmd.ChainConfig.Same.{copy, lookup_async}
use mathlib.Core.Option
use silkoroutine.Remote.{StatusData}
use silkoroutine.Cmd.SetStatus.{
  hard_forks, hard_forks_async, Flags, exited, terminated, is_rejected, request, main, main_async,
  send, finish,
}

-- The request that the flags ask for, with as many forks as a configuration has members for them.
abbrev pub IsFor : Flags → StatusData → Type 0
IsFor f r =
    (r.network_id ≡ f.chainid)
    × (r.total_difficulty ≡ f.total_difficulty)
    × (r.best_hash ≡ f.block_hash)
    × (length r.forks ≡ 9)

-- The request for a configuration that has these forks.
abbrev pub status_for : Flags → ChainConfig → List ℕ → StatusData
status_for f c forks = record {
  network_id = f.chainid;
  total_difficulty = f.total_difficulty;
  best_hash = f.block_hash;
  genesis = c.genesis_hash;
  forks = forks;
}

known :
    (i j : ℕ) {c : ChainConfig}
    → i ≡ j
    → lookup_chain_config j ≡ some c
    → lookup_chain_config i ≡ some c
known i j e h = rw e h

abbrev mainnet_forks : List ℕ
mainnet_forks =
    1_150_000 ∷ 2_463_000 ∷ 2_675_000 ∷ 4_370_000 ∷ 7_280_000 ∷ 7_280_000 ∷ 9_069_000 ∷ 9_200_000
    ∷ 12_244_000 ∷ []

abbrev ropsten_forks : List ℕ
ropsten_forks =
    0 ∷ 0 ∷ 10 ∷ 1_700_000 ∷ 4_230_000 ∷ 4_939_394 ∷ 6_485_846 ∷ 7_117_117 ∷ 9_812_189 ∷ []

module _ (set_status : StatusData → Bool) (f : Flags) (given : is_rejected f ≡ false) where
  pub main-request :
      (c : ChainConfig)
      → lookup_chain_config f.chainid ≡ some c
      → main set_status f ≡ send set_status (request f c.genesis_hash (hard_forks c))
  unfolding main
  main-request c h = rw (h, main) (rw given)

  pub main_async-request :
      (queue_next : StatusData → Option ℕ) (c : ChainConfig)
      → lookup_chain_config f.chainid ≡ some c
      → main_async set_status queue_next f
        ≡ finish set_status queue_next (request f c.genesis_hash (hard_forks c))
  unfolding main_async hard_forks_async hard_forks
  main_async-request queue_next c h =
      let same : Async.lookup_chain_config f.chainid ≡ some (copy c) =
        lookup_async f.chainid ∙ ap (Option.map copy) h in
      rw (same, main_async) (rw given (ground arith))

  -- On the chains 1 and 3, flags that are not rejected send one request, which carries the flags'
  -- values and nine forks, and the exit code is 0 where the call went well and 1 where it did not.
  pub main_sends :
      (f.chainid ≡ 1) ⊎ (f.chainid ≡ 3)
      → (r : StatusData) × IsFor f r
        × (main set_status f ≡ (if set_status r then exited (pos 0) else exited (pos 1), r ∷ []))
  unfolding send request hard_forks lookup_chain_config
  main_sends (inl e) = (
    status_for f mainnet_config mainnet_forks,
    (refl, refl, refl, refl),
    main-request mainnet_config (known _ _ e refl),
  )
  main_sends (inr e) = (
    status_for f ropsten_config ropsten_forks,
    (refl, refl, refl, refl),
    main-request ropsten_config (known _ _ e refl),
  )

  -- On the chains 5 and 61, which have a fork that is not set, flags that are not rejected end both
  -- programs by an exception that nothing catches, and nothing is sent.
  pub main_unset_fork :
      (queue_next : StatusData → Option ℕ)
      → (f.chainid ≡ 5) ⊎ (f.chainid ≡ 61)
      → (main set_status f ≡ (terminated bad_optional_access, []))
        × (main_async set_status queue_next f ≡ (terminated bad_optional_access, []))
  unfolding send finish request hard_forks lookup_chain_config
  main_unset_fork queue_next (inl e) = (
    main-request goerli_config (known _ _ e refl),
    main_async-request queue_next goerli_config (known _ _ e refl),
  )
  main_unset_fork queue_next (inr e) = (
    main-request classic_mainnet_config (known _ _ e refl),
    main_async-request queue_next classic_mainnet_config (known _ _ e refl),
  )

-- A request was sent, and the call went well.
abbrev IsSent : (StatusData → Bool) → List StatusData → Type 0
IsSent set_status rs = (r : StatusData) × (rs ≡ r ∷ []) × (set_status r ≡ true)

module _ (set_status : StatusData → Bool) (rs : List StatusData) where
  send-IsSent :
      (o : Option StatusData) → send set_status o ≡ (exited (pos 0), rs) → IsSent set_status rs
  unfolding send
  send-IsSent none h = cc
  send-IsSent (some r) h = (r, ground arith, ground arith)

  finish-IsSent :
      (queue_next : StatusData → Option ℕ) (o : Option StatusData)
      → finish set_status queue_next o ≡ (exited (pos 0), rs)
      → IsSent set_status rs
  unfolding finish
  finish-IsSent queue_next none h = cc
  finish-IsSent queue_next (some r) h = (r, ground arith, ground arith)

  -- `main` of cmd/sentry_set_status.cpp returns 0 only if it sent one request and the call went
  -- well.
  main_zero : (f : Flags) → main set_status f ≡ (exited (pos 0), rs) → IsSent set_status rs
  unfolding main
  main_zero f h = elim (Option-cases (lookup_chain_config f.chainid)) [
    | inl e ↦ cc (rw (e, main) at h)
    | inr (c, e) ↦ elim (Bool-cases (is_rejected f)) [
      | inl b ↦ cc (rw b at (rw (e, main) at h))
      | inr b ↦
          send-IsSent (request f c.genesis_hash (hard_forks c))
            (rw (main-request set_status f b c e) at h)
    ]
  ]

  -- `main` of cmd/sentry_set_status_async.cpp returns 0 only if it sent one request and the call
  -- went well, whatever the completion queue gives.
  main_async_zero :
      (queue_next : StatusData → Option ℕ) (f : Flags)
      → main_async set_status queue_next f ≡ (exited (pos 0), rs)
      → IsSent set_status rs
  unfolding main_async hard_forks_async hard_forks
  main_async_zero queue_next f h = elim (Option-cases (lookup_chain_config f.chainid)) [
    | inl e ↦
        let none_async : Async.lookup_chain_config f.chainid ≡ none =
          lookup_async f.chainid ∙ ap (Option.map copy) e in
        cc (rw (none_async, main_async) at h)
    | inr (c, e) ↦
        let some_async : Async.lookup_chain_config f.chainid ≡ some (copy c) =
          lookup_async f.chainid ∙ ap (Option.map copy) e in
        elim (Bool-cases (is_rejected f)) [
          | inl b ↦ cc (rw b at (rw (some_async, main_async) at h))
          | inr b ↦
              finish-IsSent queue_next (request f c.genesis_hash (hard_forks c))
                (rw (main_async-request set_status f b queue_next c e) at h)
        ]
  ]
