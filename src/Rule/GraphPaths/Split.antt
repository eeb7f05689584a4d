-- ===== src/Rule/GraphPaths/Split.antt =====
-- src/rule/fact_builder.cpp: SplitString at arrows, and the form of a path.
use surface_ai.Base.{ℕ, ◌≡◌, ◌≢◌, refl, ap, sym, ◌∙◌, false, List, [], ◌∷◌, ◌++◌, All, arith}
use mathlib.Core.List.{append_assoc, append-nil}
use surface_ai.Base.Text.{Text, text, starts_with}
use surface_ai.Core.Error.{ErrorCode, fail}
use surface_ai.Rule.GraphPaths.{push_token, split_from, split_string, parse_path}

abbrev pub arrow : Text
arrow = text "->"

-- Segments with arrows between them.
abbrev pub with_arrows : Text → List Text → Text
with_arrows t [] = t
with_arrows t (u ∷ us) = t ++ (arrow ++ with_arrows u us)

-- A segment is not empty and has no `>`.
abbrev pub IsSegment : Text → Type 0
IsSegment t = (t ≢ []) × All (λ c. c ≢ 62) t

-- The rest of a text does not begin with `>`.
abbrev Tame : Text → Type 0
Tame [] = Unit
Tame (c ∷ s) = c ≢ 62

split-onward :
    (token t rest : Text)
    → All (λ c. c ≢ 62) t
    → Tame rest
    → split_from arrow 0 token (t ++ rest) ≡ split_from arrow 0 (token ++ t) rest
unfolding split_from starts_with
split-onward token [] rest a h = ap (λ x. split_from arrow 0 x rest) (sym (append-nil token))
split-onward token (c ∷ t) rest a h =
    let onward =
      split-onward (token ++ c ∷ []) t rest a.1 h
      ∙ ap (λ x. split_from arrow 0 x rest) (append_assoc token (c ∷ []) t) in
    let plain : starts_with arrow (c ∷ (t ++ rest)) ≡ false = not_arrow c t rest a.1 h in
    rw (split_from, plain) onward
  where
    not_arrow :
        (c : ℕ) (t rest : Text)
        → All (λ c. c ≢ 62) t
        → Tame rest
        → starts_with arrow (c ∷ (t ++ rest)) ≡ false
    not_arrow c [] [] a h = ground arith
    not_arrow c [] (x ∷ rest) a h = ground (arith, h)
    not_arrow c (x ∷ t) rest a h = ground (arith, a.0)

push_segment : (t : Text) (ts : List Text) → t ≢ [] → push_token t ts ≡ t ∷ ts
push_segment [] ts h = absurd (h refl)
push_segment (c ∷ t) ts h = refl

-- Segments that are joined by arrows are what SplitString gives back.
pub split_string-with_arrows :
    (t : Text) (ts : List Text)
    → All IsSegment (t ∷ ts)
    → split_string (with_arrows t ts) arrow ≡ t ∷ ts
unfolding split_string split_from starts_with
split_string-with_arrows t [] a =
    ap (λ s. split_from arrow 0 [] s) (sym (append-nil t))
    ∙ split-onward [] t [] a.0.1 tt
    ∙ push_segment t [] a.0.0
split_string-with_arrows t (u ∷ us) a =
    split-onward [] t (arrow ++ with_arrows u us) a.0.1 (λ e. absurd (omega (arith, e)))
    ∙ ap (push_token t) (split_string-with_arrows u us a.1)
    ∙ push_segment t (u ∷ us) a.0.0

-- A path of one segment is refused, with or without a dot.
pub parse_path-single :
    (t : Text)
    → IsSegment t
    → parse_path t
      ≡ fail ErrorCode.rule_invalid_path
          (text "Path must have at least 'NodeType->PropertyKey': " ++ t)
unfolding parse_path
parse_path-single t a =
    let one : split_string t arrow ≡ t ∷ [] = split_string-with_arrows t [] (a, tt) in
    rw (parse_path, one) refl
