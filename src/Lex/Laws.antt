-- ===== src/Lex/Laws.antt =====
-- One turn of the loop of `Tokenize` (cova/lex.go): the bytes it takes and the token it adds.
use ccova.Prelude.{
  ℕ, ◌+◌, ◌≡◌, refl, subst, arith, Bool, true, false, ◌&&◌, ◌||◌, List, [], ◌∷◌, ◌==◌,
  if◌then◌else◌, drop, length, length-drop,
}
use ccova.Prelude.Checked.{
  Checked, accepted, ◌>>=◌, bind-eq-accepted, accepted_injective, rejected-ne_accepted,
}
use ccova.Segment.{Bytes}
use ccova.Lex.{Token, LexError, Unicode, Decodes, begins, is_operator, is_delimiter, is_ident_start}
use ccova.Lex.Literals.{Literal, numeric_literal, string_literal}
use ccova.Lex.Scan.{Position, Turn, comment_turn, literal_turn, turn}
use ccova.Lex.Progress.{
  IsWidth, and_right, begins-length, operator_width-IsWidth, delimiter_width-IsWidth, line_width-le,
  newline_width-IsWidth, ident_width-le,
}
use ccova.Lex.Widths.{
  longer-IsSilent, comment_turn-IsSilent, string_literal-IsWidth, numeric_literal-IsWidth,
}

-- No token, or one that stands where the turn starts and has the turn's width.
abbrev pub AddsAt : ℕ → List Token → ℕ → Type 0
AddsAt index [] width = Unit
AddsAt index (k ∷ []) width = (k.offset ≡ index) × (k.length ≡ width)
AddsAt index (k ∷ l ∷ ks) width = ⊥

abbrev pub IsTurn : Position → Bytes → Turn → Type 0
IsTurn at bytes t = AddsAt at.index t.tokens t.width × IsWidth t.width bytes

by_branch {ℓ} :
    {E A : Type 0} {P : Type ℓ} {x y : Checked E A} {a : A} (b : Bool)
    → (if b then x else y) ≡ accepted a
    → (b ≡ true → x ≡ accepted a → P)
    → (b ≡ false → y ≡ accepted a → P)
    → P
by_branch true h f g = f refl h
by_branch false h f g = g refl h

literal_turn-IsTurn :
    (unicode : Unicode) (at : Position) (bytes : Bytes) (m : Checked LexError Literal) {t : Turn}
    → ((literal : Literal) → m ≡ accepted literal → IsWidth literal.width bytes)
    → (m >>= λ literal. accepted (literal_turn unicode at literal)) ≡ accepted t
    → IsTurn at bytes t
literal_turn-IsTurn unicode at bytes m wide h =
    let (literal, found, same) =
      bind-eq-accepted m (λ literal. accepted (literal_turn unicode at literal)) h in
    subst (IsTurn at bytes) (accepted_injective same) ((refl, refl), wide literal found)

pub turn-IsTurn :
    (unicode : Unicode) (at : Position) (b : ℕ) (bs : Bytes) (char width : ℕ) {t : Turn}
    → Decodes unicode
    → IsWidth width (b ∷ bs)
    → turn unicode at (b ∷ bs) char width ≡ accepted t
    → IsTurn at (b ∷ bs) t
unfolding turn
turn-IsTurn unicode at b bs char width {t} decodes room h =
    let bytes = b ∷ bs in
    let ends : (u : Turn)
        → IsTurn at bytes u
        → Path (Checked LexError Turn) (accepted u) (accepted t)
        → IsTurn at bytes t =
      λ u is same. subst (IsTurn at bytes) (accepted_injective same) is in
    by_branch (char == 10 || char == 13) h
      (λ _ h. ends _ ((refl, refl), newline_width-IsWidth char width bytes room) h)
      (λ _ h.
        by_branch (unicode.is_space char) h (λ _ h. ends _ (tt, room) h)
          (λ _ h.
            by_branch (char == 47 && begins "//" bytes) h
              (λ e h.
                ends _
                  (
                    tt,
                    (
                      omega arith,
                      omega (
                        arith,
                        begins-length "//" bytes (and_right (char == 47) (begins "//" bytes) e),
                        line_width-le (drop 2 bytes),
                        length-drop 2 bytes,
                      ),
                    ),
                  )
                  h)
              (λ _ h.
                by_branch (char == 47 && begins "/*" bytes) h
                  (λ e h.
                    let silent =
                      longer-IsSilent 2 (comment_turn (drop 2 bytes) at.line (at.column + 2))
                        (drop 2 bytes) bytes
                        (omega (
                          arith,
                          begins-length "/*" bytes (and_right (char == 47) (begins "/*" bytes) e),
                          length-drop 2 bytes,
                        ))
                        (comment_turn-IsSilent (drop 2 bytes) at.line (at.column + 2)) h in
                    (rw silent.0 tt, silent.1))
                  (λ _ h.
                    by_branch (is_ident_start unicode char) h
                      (λ _ h.
                        ends _
                          (
                            (refl, refl),
                            (
                              omega (arith, room),
                              omega (
                                arith,
                                room,
                                ident_width-le unicode (length (drop width bytes))
                                    (drop width bytes) decodes,
                                length-drop width bytes,
                              ),
                            ),
                          )
                          h)
                      (λ _ h.
                        by_branch (unicode.is_digit char) h
                          (λ _ h.
                            literal_turn-IsTurn unicode at bytes (numeric_literal unicode bytes)
                              (numeric_literal-IsWidth unicode bytes) h)
                          (λ _ h.
                            by_branch (char == 34) h
                              (λ _ h.
                                literal_turn-IsTurn unicode at bytes (string_literal bytes)
                                  (string_literal-IsWidth bytes) h)
                              (λ _ h.
                                by_branch (is_operator char) h
                                  (λ _ h. ends _ ((refl, refl), operator_width-IsWidth b bs) h)
                                  (λ _ h.
                                    by_branch (is_delimiter char) h
                                      (λ _ h. ends _ ((refl, refl), delimiter_width-IsWidth b bs) h)
                                      (λ _ h. absurd (rejected-ne_accepted h))))))))))
