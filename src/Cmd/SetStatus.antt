-- ===== src/Cmd/SetStatus.antt =====
-- cmd/sentry_set_status.cpp and cmd/sentry_set_status_async.cpp. What the programs print is left
-- out. The flags are as absl has parsed them; the RPC, which belongs to gRPC, is an argument.
pub mod Outcomes
pub mod Agree
use silkoroutine.Common.{
  ℕ, Bool, true, false, Bytes, List, [], ◌∷◌, Option, none, some, ◌==◌, ltb, if◌then◌else◌, not,
  ◌&&◌, ◌||◌, ℤ, pos, negsuc,
}
use silkoroutine.Kv.World.{Error, bad_optional_access}
use silkoroutine.Remote.{StatusData}
use silkoroutine.Cmd.ChainConfig.{ChainConfig, lookup_chain_config}
use silkoroutine.Cmd.ChainConfig.Async

pub record Flags : Type 0 where
  pub chainid : ℕ
  pub target : Bytes
  pub block_hash : Bytes
  pub total_difficulty : Bytes
  pub timeout : ℕ

-- The exit code of a program, or the exception that ends it.
pub data Exit : Type 0 where
  exited : ℤ → Exit
  terminated : Error → Exit

abbrev pub is_empty : Bytes → Bool
is_empty [] = true
is_empty (c ∷ s) = false

-- `target.find(":") == npos`.
abbrev pub lacks_colon : Bytes → Bool
lacks_colon [] = true
lacks_colon (c ∷ s) = not (c == b':') && lacks_colon s

unfoldable pub hard_forks : ChainConfig → List (Option ℕ)
hard_forks c =
    c.homestead_block ∷ c.tangerine_whistle_block ∷ c.spurious_dragon_block ∷ c.byzantium_block
    ∷ c.constantinople_block ∷ c.petersburg_block ∷ c.istanbul_block ∷ c.muir_glacier_block
    ∷ c.berlin_block ∷ []

abbrev with_fork : ℕ → Option (List ℕ) → Option (List ℕ)
with_fork b none = none
with_fork b (some bs) = some (b ∷ bs)

-- The loop of `forks->add_forks(block.value())`; `none` is the `std::bad_optional_access`.
unfoldable pub add_forks : List (Option ℕ) → Option (List ℕ)
add_forks [] = some []
add_forks (none ∷ blocks) = none
add_forks (some b ∷ blocks) = with_fork b (add_forks blocks)

-- The same of the other program.
unfoldable pub hard_forks_async : Async.ChainConfig → List (Option ℕ)
hard_forks_async c =
    c.homestead_block ∷ c.tangerine_whistle_block ∷ c.spurious_dragon_block ∷ c.byzantium_block
    ∷ c.constantinople_block ∷ c.petersburg_block ∷ c.istanbul_block ∷ c.muir_glacier_block
    ∷ c.berlin_block ∷ []

-- The request with a genesis hash and a list of blocks, which is made before it is sent.
unfoldable pub request : Flags → Bytes → List (Option ℕ) → Option StatusData
unfolding add_forks
request f genesis blocks = elim (add_forks blocks) [
  | none ↦ none
  | some forks ↦ some (record {
    network_id = f.chainid;
    total_difficulty = f.total_difficulty;
    best_hash = f.block_hash;
    genesis = genesis;
    forks = forks;
  })
]

-- The three tests of the flags behind that of the chain.
abbrev pub is_rejected : Flags → Bool
is_rejected f =
    (is_empty f.target || lacks_colon f.target)
    || is_empty f.block_hash
    || is_empty f.total_difficulty

-- The exit, and the requests that were sent. `SetStatus` tells whether its result is ok.
module _ (set_status : StatusData → Bool) where
  unfoldable pub send : Option StatusData → Exit × List StatusData
  send none = (terminated bad_optional_access, [])
  send (some r) = (if set_status r then exited (pos 0) else exited (pos 1), r ∷ [])

  -- `main` of sentry_set_status.cpp.
  unfoldable pub main : Flags → Exit × List StatusData
  unfolding send hard_forks
  main f = elim (lookup_chain_config f.chainid) [
    | none ↦ (exited (negsuc 0), [])
    | some c ↦
        if is_rejected f
        then (exited (negsuc 0), [])
        else send (request f c.genesis_hash (hard_forks c))
  ]

-- What the completion queue gives: no event, or a tag. The flag `ok` is not looked at.
abbrev pub is_finish_tag : Option ℕ → Bool
is_finish_tag none = false
is_finish_tag (some tag) = tag == 1

module _ (set_status : StatusData → Bool) (queue_next : StatusData → Option ℕ) where
  unfoldable pub finish : Option StatusData → Exit × List StatusData
  finish none = (terminated bad_optional_access, [])
  finish (some r) = (
    if not (is_finish_tag (queue_next r))
        then exited (negsuc 0)
        else if set_status r
        then exited (pos 0)
        else exited (negsuc 0),
    r ∷ [],
  )

  -- `main` of sentry_set_status_async.cpp. `timeout` is unsigned, and its test never holds.
  unfoldable pub main_async : Flags → Exit × List StatusData
  unfolding finish hard_forks_async
  main_async f = elim (Async.lookup_chain_config f.chainid) [
    | none ↦ (exited (negsuc 0), [])
    | some c ↦
        if is_rejected f
        then (exited (negsuc 0), [])
        else if ltb f.timeout 0
        then (exited (negsuc 0), [])
        else finish (request f c.genesis_hash (hard_forks_async c))
  ]
