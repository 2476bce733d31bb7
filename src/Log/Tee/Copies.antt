-- ===== src/Log/Tee/Copies.antt =====
-- What the two buffers of a tee have got.
use silkoroutine.Common.{
  ℕ, zero, suc, ◌+◌, ◌%◌, ◌<◌, ◌≤◌, Bool, true, false, ◌||◌, Bytes, [], ◌∷◌, ◌++◌, ◌≡◌, ◌≢◌, refl,
  sym, ◌∙◌, ◌==◌, ℤ, pos, All, if◌then◌else◌, arith, append-nil, append_assoc, Bool-cases, inl, inr,
}
use silkoroutine.Log.Tee.{eof, is_eof, StreamBuf, TeeBuf, Buffers, overflow, sputn}

abbrev pub take : ℕ → Bytes → Bytes
take zero cs = []
take (suc n) [] = []
take (suc n) (c ∷ cs) = c ∷ take n cs

add_suc : (m n : ℕ) → suc m + n ≡ suc (m + n)
add_suc m n = omega arith

-- What a put of one character adds.
abbrev pub added : ℤ → ℕ → Bytes
added r c = if is_eof r then [] else c ∷ []

sputc_text :
    (B : StreamBuf) (c : ℕ) (s : B.State)
    → B.text (B.sputc c s).1 ≡ B.text s ++ added (B.sputc c s).0 c
sputc_text B c s = elim (Bool-cases (is_eof (B.sputc c s).0)) [
  | inl e ↦ rw e (B.sputc_fails c s e ∙ sym (append-nil (B.text s)))
  | inr e ↦ rw e (B.sputc_puts c s e)
]

is_eof_result : (b : Bool) (c : ℕ) → is_eof (if b then eof else pos c) ≡ b
is_eof_result true c = refl
is_eof_result false c = refl

module _ (B : StreamBuf) (t : TeeBuf) (apart : t.sb1 ≢ t.sb2) where
  -- One character, on each of the two buffers.
  record Overflowed (c : ℕ) (h : Buffers B) (x : ℤ × Buffers B) : Type 0 where
    first : B.text (x.1 t.sb1) ≡ B.text (h t.sb1) ++ added (B.sputc c (h t.sb1)).0 c
    second : B.text (x.1 t.sb2) ≡ B.text (h t.sb2) ++ added (B.sputc c (h t.sb2)).0 c
    result : is_eof x.0 ≡ is_eof (B.sputc c (h t.sb1)).0 || is_eof (B.sputc c (h t.sb2)).0

  overflow_texts : (c : ℕ) (h : Buffers B) → c < 256 → Overflowed c h (overflow B t (pos c) h)
  unfolding overflow
  overflow_texts c h small =
      let byte : c % 256 ≡ c = omega arith in
      let far : (t.sb1 == t.sb2) ≡ false = ground arith in
      let far' : (t.sb2 == t.sb1) ≡ false = ground arith in
      let here : (t.sb1 == t.sb1) ≡ true = ground arith in
      let here' : (t.sb2 == t.sb2) ≡ true = ground arith in
      record {
        first = simp (byte, far, here) (sputc_text B c (h t.sb1));
        second = simp (byte, far', here') (sputc_text B c (h t.sb2));
        result = simp (byte, far') (is_eof_result _ c);
      }

  -- Both buffers got the characters that were counted, and at most one of them got one more.
  pub record Copied (cs : Bytes) (h : Buffers B) (x : ℕ × Buffers B) : Type 0 where
    pub more1 : ℕ
    pub more2 : ℕ
    pub one : more1 + more2 ≤ 1
    pub first : B.text (x.1 t.sb1) ≡ B.text (h t.sb1) ++ take (x.0 + more1) cs
    pub second : B.text (x.1 t.sb2) ≡ B.text (h t.sb2) ++ take (x.0 + more2) cs

  -- Where the first character fails on a buffer.
  failed :
      (c : ℕ) (cs : Bytes) (h : Buffers B) (b1 b2 : Bool) (h' : Buffers B)
      → (b1 || b2) ≡ true
      → B.text (h' t.sb1) ≡ B.text (h t.sb1) ++ (if b1 then [] else c ∷ [])
      → B.text (h' t.sb2) ≡ B.text (h t.sb2) ++ (if b2 then [] else c ∷ [])
      → Copied (c ∷ cs) h (0, h')
  failed c cs h true true h' e p q = record {
    more1 = 0;
    more2 = 0;
    one = omega arith;
    first = p;
    second = q;
  }
  failed c cs h true false h' e p q = record {
    more1 = 0;
    more2 = 1;
    one = omega arith;
    first = p;
    second = q;
  }
  failed c cs h false true h' e p q = record {
    more1 = 1;
    more2 = 0;
    one = omega arith;
    first = p;
    second = q;
  }
  failed c cs h false false h' e p q = cc

  succeeded :
      (c : ℕ) (cs : Bytes) (h : Buffers B) (b1 b2 : Bool) (h' : Buffers B) (x : ℕ × Buffers B)
      → (b1 || b2) ≡ false
      → B.text (h' t.sb1) ≡ B.text (h t.sb1) ++ (if b1 then [] else c ∷ [])
      → B.text (h' t.sb2) ≡ B.text (h t.sb2) ++ (if b2 then [] else c ∷ [])
      → Copied cs h' x
      → Copied (c ∷ cs) h (suc x.0, x.1)
  succeeded c cs h true b2 h' x e p q k = cc
  succeeded c cs h false true h' x e p q k = cc
  succeeded c cs h false false h' x e p q k = record {
    more1 = k.more1;
    more2 = k.more2;
    one = k.one;
    first = k.first ∙ simp (p, append_assoc, add_suc) refl;
    second = k.second ∙ simp (q, append_assoc, add_suc) refl;
  }

  -- Text that is written to a tee of two buffers: both get, in order, the characters that the tee
  -- counts as written, and at most one of them gets one more, the character at which the other one
  -- failed. So both get the same text where all of it is counted.
  pub sputn-Copied :
      (cs : Bytes) (h : Buffers B) → All (λ c. c < 256) cs → Copied cs h (sputn B t cs h)
  unfolding sputn
  sputn-Copied [] h small = record {
    more1 = 0;
    more2 = 0;
    one = omega arith;
    first = sym (append-nil _);
    second = sym (append-nil _);
  }
  sputn-Copied (c ∷ cs) h (small, rest) =
      let x = overflow B t (pos c) h in
      let o = overflow_texts c h small in
      elim (Bool-cases (is_eof (B.sputc c (h t.sb1)).0 || is_eof (B.sputc c (h t.sb2)).0)) [
        | inl bad ↦ rw (o.result, bad) (failed c cs h _ _ x.1 bad o.first o.second)
        | inr good ↦
            rw (o.result, good)
              (succeeded c cs h _ _ x.1 (sputn B t cs x.1) good o.first o.second
                (sputn-Copied cs x.1 rest))
      ]
