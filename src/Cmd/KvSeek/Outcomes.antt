-- ===== src/Cmd/KvSeek/Outcomes.antt =====
-- When the program returns 0, and what it has sent then.
use silkoroutine.Common.{
  Bool, true, false, Bytes, List, [], ◌∷◌, ◌++◌, Option, none, some, ◌≡◌, refl, pos, negsuc, ℤ,
  Option-cases, inl, inr, ap, ◌∙◌, append_assoc, sym,
}
use silkoroutine.Remote.{Cursor, Pair, open_message, seek_message, close_message}
use silkoroutine.Kv.World.{Item}
use silkoroutine.Cmd.KvFlags.{Flags, check}
use silkoroutine.Cmd.KvSeek.{Stream, kv_seek, main, exit_code}

-- The stream takes three messages, and sends three pairs of which the first is `p`.
pub IsAnswered : Pair → Stream → Type 0
IsAnswered p s =
    (ws : List Bool) × (rs : List (Option Pair)) × (q r : Pair) × (s.writes
      ≡ true ∷ true ∷ true ∷ ws)
    × (s.reads ≡ some p ∷ some q ∷ some r ∷ rs)

abbrev pub requests : Bytes → Bytes → Pair → List Cursor
requests table key p =
    open_message table ∷ seek_message p.cursorid key ∷ close_message p.cursorid ∷ []

++-three :
    (ms : List Cursor) (a b c : Cursor)
    → ((ms ++ a ∷ []) ++ b ∷ []) ++ c ∷ [] ≡ ms ++ a ∷ b ∷ c ∷ []
++-three ms a b c = simp (append_assoc) refl

kv_seek-some :
    (table key : Bytes) (ws : List Bool) (rs : List (Option Pair)) (ms : List Cursor)
    (ls : List (List Item)) (t : Stream)
    → kv_seek table key (record { writes = ws; reads = rs; sent = ms; shown = ls }) ≡ (some tt, t)
    → (p : Pair) × IsAnswered p (record { writes = ws; reads = rs; sent = ms; shown = ls })
      × (t.sent ≡ ms ++ requests table key p)
unfolding kv_seek IsAnswered
kv_seek-some table key [] rs ms ls t e = cc
kv_seek-some table key (false ∷ ws) rs ms ls t e = cc
kv_seek-some table key (true ∷ ws) [] ms ls t e = cc
kv_seek-some table key (true ∷ ws) (none ∷ rs) ms ls t e = cc
kv_seek-some table key (true ∷ []) (some p ∷ rs) ms ls t e = cc
kv_seek-some table key (true ∷ false ∷ ws) (some p ∷ rs) ms ls t e = cc
kv_seek-some table key (true ∷ true ∷ ws) (some p ∷ []) ms ls t e = cc
kv_seek-some table key (true ∷ true ∷ ws) (some p ∷ none ∷ rs) ms ls t e = cc
kv_seek-some table key (true ∷ true ∷ []) (some p ∷ some q ∷ rs) ms ls t e = cc
kv_seek-some table key (true ∷ true ∷ false ∷ ws) (some p ∷ some q ∷ rs) ms ls t e = cc
kv_seek-some table key (true ∷ true ∷ true ∷ ws) (some p ∷ some q ∷ []) ms ls t e = cc
kv_seek-some table key (true ∷ true ∷ true ∷ ws) (some p ∷ some q ∷ none ∷ rs) ms ls t e = cc
kv_seek-some table key (true ∷ true ∷ true ∷ ws) (some p ∷ some q ∷ some r ∷ rs) ms ls t e =
    (p, (ws, rs, q, r, refl, refl), sym (ap (λ x. x.1.sent) e) ∙ ++-three ms _ _ _)

exit_code-zero :
    (o : Option (Unit {0})) (s t : Stream)
    → ◌≡◌ {A = ℤ × Stream} (exit_code o, s) (pos 0, t)
    → ◌≡◌ {A = Option (Unit {0}) × Stream} (o, s) (some tt, t)
exit_code-zero none s t e = cc
exit_code-zero (some _) s t e = simp (ap (λ x. x.1) e) refl

main-none : (f : Flags) (s : Stream) → check f ≡ none → main f s ≡ (negsuc 0, s)
unfolding main
main-none f s h = rw (h, main) refl

main-some :
    (f : Flags) (s : Stream) (key : Bytes)
    → check f ≡ some key
    → main f s ≡ (exit_code (kv_seek f.table key s).0, (kv_seek f.table key s).1)
unfolding main
main-some f s key h = rw (h, main) refl

zero_with :
    (f : Flags) (s t : Stream) (key : Bytes)
    → check f ≡ some key
    → main f s ≡ (pos 0, t)
    → (p : Pair) × IsAnswered p s × (t.sent ≡ s.sent ++ requests f.table key p)
zero_with f s t key h e =
    kv_seek-some f.table key s.writes s.reads s.sent s.shown t
      (exit_code-zero _ _ t (sym (main-some f s key h) ∙ e))

-- `main` returns 0 only if the flags are right and the stream takes three messages and sends three
-- pairs; the messages are then OPEN of the table, SEEK of the key and CLOSE, the last two with the
-- cursor's number out of the first pair.
pub main-IsAnswered :
    (f : Flags) (s t : Stream)
    → main f s ≡ (pos 0, t)
    → (key : Bytes) × (p : Pair) × (check f ≡ some key)
      × IsAnswered p s
      × (t.sent ≡ s.sent ++ requests f.table key p)
main-IsAnswered f s t e = elim (Option-cases (check f)) [
  | inl h ↦ cc (main-none f s h)
  | inr (key, h) ↦ let (p, a, q) = zero_with f s t key h e in (key, p, h, a, q)
]
