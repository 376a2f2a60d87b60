-- ===== src/Tests/Codec.antt =====
-- A code of JSON values: a value is a sequence of tokens in prefix order, which is read from its
-- end onto a stack.
use sc_helper.Prelude.{
  ℕ, ◌+◌, ◌*◌, ◌/◌, ◌%◌, ◌<◌, ◌≡◌, refl, ap, ◌∙◌, Option, none, some, List, [], ◌∷◌, if◌then◌else◌,
  ◌==◌, Bytes, Text, arith,
}
use sc_helper.Ipc.Wire.{Value, str, num, strs, obj, Fields, end, field}

pub data Item : Type 0 where
  text : Text → Item
  texts : List Text → Item
  value : Value → Item
  fields : Fields → Item

abbrev pub Stack : Type 0
Stack = List Item

pub data Op : Type 0 where
  nil cons nils conses wrap number last entry : Op

abbrev pub number_of : Op → ℕ
number_of nil = 0
number_of cons = 1
number_of nils = 2
number_of conses = 3
number_of wrap = 4
number_of number = 5
number_of last = 6
number_of entry = 7

abbrev pub op_at : ℕ → Op
op_at n =
    if n == 0
    then nil
    else if n == 1
    then cons
    else if n == 2
    then nils
    else if n == 3
    then conses
    else if n == 4
    then wrap
    else if n == 5
    then number
    else if n == 6
    then last
    else entry

-- A token is an operation, below 8, and an argument.
abbrev pub token : Op → ℕ → ℕ
token op n = 8 * n + number_of op

abbrev pub push : Op → ℕ → Stack → Stack
push nil n s = text [] ∷ s
push cons n (text t ∷ s) = text (n ∷ t) ∷ s
push nils n s = texts [] ∷ s
push conses n (text t ∷ texts l ∷ s) = texts (t ∷ l) ∷ s
push wrap n (text t ∷ s) = value (str t) ∷ s
push wrap n (texts l ∷ s) = value (strs l) ∷ s
push wrap n (fields f ∷ s) = value (obj f) ∷ s
push number n s = value (num n) ∷ s
push last n s = fields end ∷ s
push entry n (text t ∷ value v ∷ fields f ∷ s) = fields (field t v f) ∷ s
push op n s = s

abbrev pub decode : Bytes → Stack
decode [] = []
decode (b ∷ bs) = push (op_at (b % 8)) (b / 8) (decode bs)

op_at-number_of : (op : Op) → (number_of op < 8) × (op_at (number_of op) ≡ op)
op_at-number_of nil = (omega arith, refl)
op_at-number_of cons = (omega arith, refl)
op_at-number_of nils = (omega arith, refl)
op_at-number_of conses = (omega arith, refl)
op_at-number_of wrap = (omega arith, refl)
op_at-number_of number = (omega arith, refl)
op_at-number_of last = (omega arith, refl)
op_at-number_of entry = (omega arith, refl)

decode-token : (op : Op) (n : ℕ) (bs : Bytes) → decode (token op n ∷ bs) ≡ push op n (decode bs)
decode-token op n bs =
    let (small, same) = op_at-number_of op in
    let rest : (8 * n + number_of op) % 8 ≡ number_of op = omega arith in
    let quotient : (8 * n + number_of op) / 8 ≡ n = omega arith in rw (rest, quotient, same)

-- Each writes its tokens in front of `r`.
abbrev pub put_text : Text → Bytes → Bytes
put_text [] r = token nil 0 ∷ r
put_text (c ∷ t) r = token cons c ∷ put_text t r

abbrev pub put_texts : List Text → Bytes → Bytes
put_texts [] r = token nils 0 ∷ r
put_texts (t ∷ l) r = token conses 0 ∷ put_text t (put_texts l r)

unfoldable mutual
  pub put_value : Value → Bytes → Bytes
  put_value (str t) r = token wrap 0 ∷ put_text t r
  put_value (strs l) r = token wrap 0 ∷ put_texts l r
  put_value (num n) r = token number n ∷ r
  put_value (obj f) r = token wrap 0 ∷ put_fields f r

  pub put_fields : Fields → Bytes → Bytes
  put_fields end r = token last 0 ∷ r
  put_fields (field t v f) r = token entry 0 ∷ put_text t (put_value v (put_fields f r))

decode-put_text : (t : Text) (r : Bytes) → decode (put_text t r) ≡ text t ∷ decode r
decode-put_text [] r = decode-token nil 0 r
decode-put_text (c ∷ t) r =
    decode-token cons c (put_text t r) ∙ ap (push cons c) (decode-put_text t r)

decode-put_texts : (l : List Text) (r : Bytes) → decode (put_texts l r) ≡ texts l ∷ decode r
decode-put_texts [] r = decode-token nils 0 r
decode-put_texts (t ∷ l) r =
    decode-token conses 0 (put_text t (put_texts l r))
    ∙ ap (push conses 0)
        (decode-put_text t (put_texts l r) ∙ ap (λ s. text t ∷ s) (decode-put_texts l r))

mutual
  unfolding put_value

  decode-put_value : (v : Value) (r : Bytes) → decode (put_value v r) ≡ value v ∷ decode r
  decode-put_value (str t) r =
      decode-token wrap 0 (put_text t r) ∙ ap (push wrap 0) (decode-put_text t r)
  decode-put_value (strs l) r =
      decode-token wrap 0 (put_texts l r) ∙ ap (push wrap 0) (decode-put_texts l r)
  decode-put_value (num n) r = decode-token number n r
  decode-put_value (obj f) r =
      decode-token wrap 0 (put_fields f r) ∙ ap (push wrap 0) (decode-put_fields f r)

  decode-put_fields : (f : Fields) (r : Bytes) → decode (put_fields f r) ≡ fields f ∷ decode r
  decode-put_fields end r = decode-token last 0 r
  decode-put_fields (field t v f) r =
      decode-token entry 0 (put_text t (put_value v (put_fields f r)))
      ∙ ap (push entry 0) (
          decode-put_text t (put_value v (put_fields f r))
          ∙ ap (λ s. text t ∷ s)
              (decode-put_value v (put_fields f r) ∙ ap (λ s. value v ∷ s) (decode-put_fields f r)))

abbrev pub sole_value : Stack → Option Value
sole_value (value v ∷ []) = some v
sole_value _ = none

unfoldable pub from_slice : Bytes → Option Value
from_slice bs = sole_value (decode bs)

unfoldable pub to_vec : Value → Bytes
unfolding put_value
to_vec v = put_value v []

pub from_slice-to_vec : (v : Value) → from_slice (to_vec v) ≡ some v
unfolding from_slice to_vec
from_slice-to_vec v = ap sole_value (decode-put_value v [])
