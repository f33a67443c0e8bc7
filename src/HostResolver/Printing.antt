-- ===== src/HostResolver/Printing.antt =====
-- `print_local_addresses` ends exactly where every address can be converted.
use mathlib.Core.List.{append_assoc, append-nil}
use orb_weaver.HostResolver.{print_loop, print_local_addresses}
use orb_weaver.Prelude.{
  ℕ, zero, suc, ◌<◌, ◌≡◌, refl, ap, ◌∙◌, Bool, true, false, ◌&&◌, List, [], ◌∷◌, ◌++◌, arith, ok,
  fault, out_of_fuel, if◌then◌else◌, length, Bool-cases, inl, inr,
}

abbrev pub all : {A : Type 0} → (A → Bool) → List A → Bool
all converts [] = true
all converts (a ∷ rest) = converts a && all converts rest

module _ {A : Type 0} (inet_ntop : A → Bool) where
  print_loop-stuck :
      (fuel : ℕ) (a : A) (cursor printed : List A)
      → inet_ntop a ≡ false
      → print_loop inet_ntop fuel (a ∷ cursor) printed ≡ fault out_of_fuel
  unfolding print_loop
  print_loop-stuck zero a cursor printed h = refl
  print_loop-stuck (suc fuel) a cursor printed h = rw h (print_loop-stuck fuel a cursor printed h)

  print_loop-all :
      (fuel : ℕ) (cursor printed : List A)
      → length cursor < fuel
      → print_loop inet_ntop fuel cursor printed
        ≡ (if all inet_ntop cursor then ok (printed ++ cursor) else fault out_of_fuel)
  unfolding print_loop
  print_loop-all zero cursor printed h = absurd (omega arith)
  print_loop-all (suc fuel) [] printed h = rw append-nil
  print_loop-all (suc fuel) (a ∷ cursor) printed h = elim (Bool-cases (inet_ntop a)) [
    | inl fine ↦ rw fine (
        print_loop-all fuel cursor (printed ++ a ∷ []) (omega arith)
        ∙ ap (λ r. if all inet_ntop cursor then ok r else fault out_of_fuel)
            (append_assoc printed (a ∷ []) cursor))
    | inr stuck ↦ rw stuck (print_loop-stuck fuel a cursor printed stuck)
  ]

-- With more rounds than either list has nodes, `print_local_addresses` prints and frees all nodes in
-- order and returns `true` if `inet_ntop` converts every address; if not, it never ends.
pub print_local_addresses-all :
    {A B : Type 0} (ipv4_ntop : A → Bool) (ipv6_ntop : B → Bool) (fuel : ℕ) (ipv4 : List A)
    (ipv6 : List B)
    → length ipv4 < fuel
    → length ipv6 < fuel
    → print_local_addresses ipv4_ntop ipv6_ntop fuel ipv4 ipv6 ≡ (
        if all ipv4_ntop ipv4 && all ipv6_ntop ipv6
        then ok (true, ipv4, ipv6)
        else fault out_of_fuel)
unfolding print_local_addresses
print_local_addresses-all ipv4_ntop ipv6_ntop fuel ipv4 ipv6 h k =
    let l4 = print_loop-all ipv4_ntop fuel ipv4 [] h in
    let l6 = print_loop-all ipv6_ntop fuel ipv6 [] k in
    elim (Bool-cases (all ipv4_ntop ipv4)) [
      | inr p ↦ rw (l4, p)
      | inl p ↦ elim (Bool-cases (all ipv6_ntop ipv6)) [
        | inl q ↦ rw (l4, l6, p, q)
        | inr q ↦ rw (l4, l6, p, q)
      ]
    ]
