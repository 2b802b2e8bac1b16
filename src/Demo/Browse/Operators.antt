-- ===== src/Demo/Browse/Operators.antt =====
-- The operators of the filters of the demo store: the signs that each accepts.
use relvo.Base.{
  text_eq, text_eq_iff, ◌≡◌, refl, sym, subst, ◌≢◌, ◌⊎◌, ◌↔◌, inl, inr, Bool, true, false, arith,
  Bool-cases, Text, bytes,
}
use relvo.Demo.Compare.{Sign, below, same, above}
use relvo.Demo.Browse.{Test, null_test, filled_test, part_test, sign_test, no_test, test_of}

-- An operator and a sign that it accepts.
abbrev pub Accepts : Text → Sign → Type 0
Accepts op sign =
    ((op ≡ bytes "eq") × (sign ≡ same))
    ⊎ ((op ≡ bytes "ne") × (sign ≢ same))
    ⊎ ((op ≡ bytes "gt") × (sign ≡ above))
    ⊎ ((op ≡ bytes "gte") × (sign ≢ below))
    ⊎ ((op ≡ bytes "lt") × (sign ≡ below))
    ⊎ ((op ≡ bytes "lte") × (sign ≢ above))

-- What the test of an operator stands for.
abbrev pub Stands : Text → Test → Type 0
Stands op null_test = op ≡ bytes "is-null"
Stands op filled_test = op ≡ bytes "not-null"
Stands op part_test = op ≡ bytes "contains"
Stands op (sign_test holds) =
    (op ≢ bytes "is-null")
    × (op ≢ bytes "not-null")
    × (op ≢ bytes "contains")
    × ((sign : Sign) → (holds sign ≡ true) ↔ Accepts op sign)
Stands op no_test =
    (op ≢ bytes "is-null")
    × (op ≢ bytes "not-null")
    × (op ≢ bytes "contains")
    × ((sign : Sign) → ¬ Accepts op sign)

by_sign :
    (holds : Sign → Bool) (op : Text)
    → (holds below ≡ true) ↔ Accepts op below
    → (holds same ≡ true) ↔ Accepts op same
    → (holds above ≡ true) ↔ Accepts op above
    → (sign : Sign) → (holds sign ≡ true) ↔ Accepts op sign
by_sign holds op b s a below = b
by_sign holds op b s a same = s
by_sign holds op b s a above = a

is_text : (op c : Text) → Stands c (test_of c) → text_eq op c ≡ true → Stands op (test_of op)
is_text op c h e = subst (λ o. Stands o (test_of o)) (sym ((text_eq_iff op c).0 e)) h

eq-Stands : Stands (bytes "eq") (test_of (bytes "eq"))
unfolding test_of text_eq
eq-Stands = (λ n. cc, λ n. cc, λ n. cc, by_sign _ _ (ground arith) (ground arith) (ground arith))

ne-Stands : Stands (bytes "ne") (test_of (bytes "ne"))
unfolding test_of text_eq
ne-Stands = (λ n. cc, λ n. cc, λ n. cc, by_sign _ _ (ground arith) (ground arith) (ground arith))

gt-Stands : Stands (bytes "gt") (test_of (bytes "gt"))
unfolding test_of text_eq
gt-Stands = (λ n. cc, λ n. cc, λ n. cc, by_sign _ _ (ground arith) (ground arith) (ground arith))

gte-Stands : Stands (bytes "gte") (test_of (bytes "gte"))
unfolding test_of text_eq
gte-Stands = (λ n. cc, λ n. cc, λ n. cc, by_sign _ _ (ground arith) (ground arith) (ground arith))

lt-Stands : Stands (bytes "lt") (test_of (bytes "lt"))
unfolding test_of text_eq
lt-Stands = (λ n. cc, λ n. cc, λ n. cc, by_sign _ _ (ground arith) (ground arith) (ground arith))

lte-Stands : Stands (bytes "lte") (test_of (bytes "lte"))
unfolding test_of text_eq
lte-Stands = (λ n. cc, λ n. cc, λ n. cc, by_sign _ _ (ground arith) (ground arith) (ground arith))

null-Stands : Stands (bytes "is-null") (test_of (bytes "is-null"))
unfolding test_of text_eq
null-Stands = refl

filled-Stands : Stands (bytes "not-null") (test_of (bytes "not-null"))
unfolding test_of text_eq
filled-Stands = refl

part-Stands : Stands (bytes "contains") (test_of (bytes "contains"))
unfolding test_of text_eq
part-Stands = refl

pub not_both : (b : Bool) → b ≡ false → b ≡ true → ⊥
not_both b f t = cc

not_text : (op c : Text) → text_eq op c ≡ false → op ≢ c
not_text op c h e = ground (arith, text_eq_iff op c)

none-Accepts :
    (op : Text) (sign : Sign)
    → text_eq op (bytes "eq") ≡ false
    → text_eq op (bytes "ne") ≡ false
    → text_eq op (bytes "gt") ≡ false
    → text_eq op (bytes "gte") ≡ false
    → text_eq op (bytes "lt") ≡ false
    → text_eq op (bytes "lte") ≡ false
    → ¬ Accepts op sign
none-Accepts op sign e n g ge l le a = ground (
  arith,
  not_text op _ e,
  not_text op _ n,
  not_text op _ g,
  not_text op _ ge,
  not_text op _ l,
  not_text op _ le,
)

pub test_of-Stands : (op : Text) → Stands op (test_of op)
unfolding test_of
test_of-Stands op = elim (Bool-cases (text_eq op (bytes "is-null"))) [
  | inl e ↦ is_text op (bytes "is-null") null-Stands e
  | inr n0 ↦ elim (Bool-cases (text_eq op (bytes "not-null"))) [
    | inl e ↦ is_text op (bytes "not-null") filled-Stands e
    | inr n1 ↦ elim (Bool-cases (text_eq op (bytes "contains"))) [
      | inl e ↦ is_text op (bytes "contains") part-Stands e
      | inr n2 ↦ elim (Bool-cases (text_eq op (bytes "eq"))) [
        | inl e ↦ is_text op (bytes "eq") eq-Stands e
        | inr n3 ↦ elim (Bool-cases (text_eq op (bytes "ne"))) [
          | inl e ↦ is_text op (bytes "ne") ne-Stands e
          | inr n4 ↦ elim (Bool-cases (text_eq op (bytes "gt"))) [
            | inl e ↦ is_text op (bytes "gt") gt-Stands e
            | inr n5 ↦ elim (Bool-cases (text_eq op (bytes "gte"))) [
              | inl e ↦ is_text op (bytes "gte") gte-Stands e
              | inr n6 ↦ elim (Bool-cases (text_eq op (bytes "lt"))) [
                | inl e ↦ is_text op (bytes "lt") lt-Stands e
                | inr n7 ↦ elim (Bool-cases (text_eq op (bytes "lte"))) [
                  | inl e ↦ is_text op (bytes "lte") lte-Stands e
                  | inr n8 ↦
                      rw (n0, n1, n2, n3, n4, n5, n6, n7, n8)
                        (
                          not_text op _ n0,
                          not_text op _ n1,
                          not_text op _ n2,
                          λ sign. none-Accepts op sign n3 n4 n5 n6 n7 n8,
                        )
                ]
              ]
            ]
          ]
        ]
      ]
    ]
  ]
]
