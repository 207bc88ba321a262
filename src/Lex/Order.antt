-- ===== src/Lex/Order.antt =====
-- The loop of `Tokenize` (cova/lex.go): where its tokens stand in the text.
use ccova.Prelude.{
  ℕ, zero, suc, ◌+◌, ◌≤◌, ◌≡◌, refl, subst, arith, List, [], ◌∷◌, ◌++◌, drop, length, length-drop,
}
use ccova.Prelude.Checked.{
  accepted, ◌>>=◌, bind-eq-accepted, accepted_injective, rejected-ne_accepted,
}
use ccova.Segment.{Bytes}
use ccova.Lex.{Token, Unicode, Decodes}
use ccova.Lex.Kinds.{TokenKind}
use ccova.Lex.Scan.{Position, token, turn, behind, with_tokens, tokens_from, tokenize}
use ccova.Lex.Laws.{AddsAt, turn-IsTurn}

-- The tokens of a text from an index to its end: each takes at least a byte and begins at or behind
-- the end of the one before, and the last is the end of the text, which takes none.
pub data IsOrdered : ℕ → ℕ → List Token → Type 0 where
  done :
      {start finish : ℕ} (k : Token)
      → k.kind ≡ TokenKind.eof
      → k.offset ≡ finish
      → k.length ≡ 0
      → start ≤ finish
      → IsOrdered start finish (k ∷ [])
  next :
      {start finish : ℕ} {ks : List Token} (k : Token)
      → start ≤ k.offset
      → 1 ≤ k.length
      → IsOrdered (k.offset + k.length) finish ks
      → IsOrdered start finish (k ∷ ks)

earlier :
    {start later finish : ℕ} (ks : List Token)
    → start ≤ later
    → IsOrdered later finish ks
    → IsOrdered start finish ks
earlier _ le (done k kind offset size bound) = done k kind offset size (omega (arith, le, bound))
earlier _ le (next k offset size rest) = next k (omega (arith, le, offset)) size rest

added-IsOrdered :
    (index width finish : ℕ) (added more : List Token)
    → 1 ≤ width
    → AddsAt index added width
    → IsOrdered (index + width) finish more
    → IsOrdered index finish (added ++ more)
added-IsOrdered index width finish [] more wide adds rest = earlier more (omega arith) rest
added-IsOrdered index width finish (k ∷ []) more wide (offset, size) rest =
    next k (omega (arith, offset)) (omega (arith, wide, size)) (rw (offset, size) rest)
added-IsOrdered index width finish (k ∷ l ∷ ks) more wide adds rest = absurd adds

tokens_from-IsOrdered :
    (unicode : Unicode) (fuel : ℕ) (at : Position) (bytes : Bytes) (finish : ℕ) {ks : List Token}
    → Decodes unicode
    → at.index + length bytes ≡ finish
    → tokens_from unicode fuel at bytes ≡ accepted ks
    → IsOrdered at.index finish ks
unfolding tokens_from
tokens_from-IsOrdered unicode fuel at [] finish d ends h =
    subst (IsOrdered at.index finish) (accepted_injective h)
      (done (token TokenKind.eof at 0) refl (omega (arith, ends)) refl (omega (arith, ends)))
tokens_from-IsOrdered unicode zero at (b ∷ bs) finish d ends h = absurd (rejected-ne_accepted h)
tokens_from-IsOrdered unicode (suc fuel) at (b ∷ bs) finish d ends h =
    let rune = unicode.decode_rune (b ∷ bs) in
    let (t, turned, more) =
      bind-eq-accepted (turn unicode at (b ∷ bs) rune.0 rune.1)
        (λ t.
          tokens_from unicode fuel (behind unicode at t) (drop t.width (b ∷ bs))
          >>= with_tokens unicode t.tokens)
        h in
    let (ls, rest, same) =
      bind-eq-accepted (tokens_from unicode fuel (behind unicode at t) (drop t.width (b ∷ bs)))
        (with_tokens unicode t.tokens) more in
    let (adds, wide) =
      turn-IsTurn unicode at b bs rune.0 rune.1 d (d.positive b bs, d.bounded b bs) turned in
    let left : (at.index + t.width) + length (drop t.width (b ∷ bs)) ≡ finish =
      omega (arith, ends, wide, length-drop t.width (b ∷ bs)) in
    subst (IsOrdered at.index finish) (accepted_injective same) (
      added-IsOrdered at.index t.width finish t.tokens ls wide.0 adds (
        tokens_from-IsOrdered unicode fuel (behind unicode at t) (drop t.width (b ∷ bs)) finish d
          left rest))

-- Where the decoding of a rune takes at least one of the bytes that are left and at most all,
-- the tokens of a source that `Tokenize` accepts stand one behind the other in the source:
-- each takes at least a byte and begins at or behind the end of the one before, and the last,
-- of kind TokEOF, takes none and stands at the end of the source.
pub tokenize-IsOrdered :
    (unicode : Unicode) (src : Bytes) (ks : List Token)
    → Decodes unicode
    → tokenize unicode src ≡ accepted ks
    → IsOrdered 0 (length src) ks
unfolding tokenize
tokenize-IsOrdered unicode src ks d h =
    tokens_from-IsOrdered unicode (length src) (record { index = 0; line = 1; column = 1 }) src
      (length src) d (omega arith) h
