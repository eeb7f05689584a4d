-- ===== src/Rule/Value.antt =====
-- include/sai/rule/value.h and src/rule/value.cpp. The three shapes that the factories build are the
-- constructors; a list holds values, so the lists stand in one block with them.
use surface_ai.Base.{ℕ, suc, Bool, true, false, ◌&&◌, ◌||◌, Option, none, some, ◌==◌, if◌then◌else◌}
use surface_ai.Base.Text.{Text, text_eq}
use surface_ai.Rule.Double.{Double}

pub data Scalar (D : Type 0) : Type 0 where
  number : D → Scalar D
  string : Text → Scalar D
  boolean : Bool → Scalar D

mutual
  pub data Value (D : Type 0) : Type 0 where
    null : Value D
    scalar : Scalar D → Value D
    list : Values D → Value D

  pub data Values (D : Type 0) : Type 0 where
    nil : Values D
    cons : Value D → Values D → Values D

module _ {D : Type 0} where
  abbrev pub of_double : D → Value D
  of_double v = scalar (number v)

  abbrev pub of_string : Text → Value D
  of_string v = scalar (string v)

  abbrev pub of_bool : Bool → Value D
  of_bool v = scalar (boolean v)

  abbrev pub is_null : Value D → Bool
  is_null null = true
  is_null _ = false

  abbrev pub as_double : Value D → Option D
  as_double (scalar (number v)) = some v
  as_double _ = none

  abbrev pub as_string : Value D → Option Text
  as_string (scalar (string v)) = some v
  as_string _ = none

  abbrev pub as_bool : Value D → Option Bool
  as_bool (scalar (boolean v)) = some v
  as_bool _ = none

  abbrev pub as_list : Value D → Option (Values D)
  as_list (list vs) = some vs
  as_list _ = none

  unfoldable pub size : Values D → ℕ
  size nil = 0
  size (cons v vs) = suc (size vs)

module _ {D : Type 0} ⦃d : Double D⦄ where
  unfoldable pub as_numeric : Value D → Option D
  as_numeric (scalar (number v)) = some v
  as_numeric (scalar (boolean b)) = some (if b then d.one else d.nought)
  as_numeric _ = none

  -- What `operator+`, `-` and `*` share: null unless both sides are numeric.
  abbrev pub arithmetic : (D → D → D) → Value D → Value D → Value D
  arithmetic f a b = elim (as_numeric a) [
    | none ↦ null
    | some x ↦ elim (as_numeric b) [ none ↦ null | some y ↦ of_double (f x y) ]
  ]

  unfoldable pub value_add : Value D → Value D → Value D
  unfolding as_numeric
  value_add = arithmetic d.add

  unfoldable pub value_sub : Value D → Value D → Value D
  unfolding as_numeric
  value_sub = arithmetic d.sub

  unfoldable pub value_mul : Value D → Value D → Value D
  unfolding as_numeric
  value_mul = arithmetic d.mul

  unfoldable pub value_div : Value D → Value D → Value D
  unfolding as_numeric
  value_div a b = elim (as_numeric a) [
    | none ↦ null
    | some x ↦ elim (as_numeric b) [
      | none ↦ null
      | some y ↦ if d.eq y d.nought then null else of_double (d.div x y)
    ]
  ]

  abbrev pub compare_numeric : (D → D → Bool) → Value D → Value D → Bool
  compare_numeric f a b = elim (as_numeric a) [
    | none ↦ false
    | some x ↦ elim (as_numeric b) [ none ↦ false | some y ↦ f x y ]
  ]

  unfoldable pub value_lt : Value D → Value D → Bool
  unfolding as_numeric
  value_lt = compare_numeric d.lt

  unfoldable pub value_gt : Value D → Value D → Bool
  unfolding as_numeric
  value_gt = compare_numeric d.gt

  -- Variants are equal if they hold the same alternative with equal values.
  unfoldable pub scalar_eq : Scalar D → Scalar D → Bool
  scalar_eq (number a) (number b) = d.eq a b
  scalar_eq (string a) (string b) = text_eq a b
  scalar_eq (boolean true) (boolean b) = b
  scalar_eq (boolean false) (boolean b) = if b then false else true
  scalar_eq _ _ = false

  unfoldable mutual
    unfolding scalar_eq size

    pub value_eq : Value D → Value D → Bool
    value_eq null null = true
    value_eq (scalar a) (scalar b) = scalar_eq a b
    value_eq (list xs) (list ys) = (size xs == size ys) && elements_eq xs ys
    value_eq _ _ = false

    -- Both lists have one length where this is called.
    pub elements_eq : Values D → Values D → Bool
    elements_eq nil ys = true
    elements_eq (cons x xs) nil = true
    elements_eq (cons x xs) (cons y ys) = value_eq x y && elements_eq xs ys

  -- The loop of the operator `in`.
  unfoldable pub member : Value D → Values D → Bool
  member v nil = false
  member v (cons x xs) = value_eq v x || member v xs
