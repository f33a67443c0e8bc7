-- ===== src/HostResolver.antt =====
-- services/tcp/host-resolver/host_resolver.c. What `getaddrinfo` returns for a port, and whether
-- `inet_ntop` converts an address, are arguments.
pub mod Port
pub mod Printing
use orb_weaver.Memory.Text.{text}
use orb_weaver.Memory.{Bytes}
use orb_weaver.Prelude.{
  ℕ, zero, suc, Bool, true, false, not, Option, none, some, List, [], ◌∷◌, ◌++◌, Run, ok, fault,
  null_dereference, out_of_fuel, ◌>>=◌, ℤ, pos, negsuc, ◌==◌, if◌then◌else◌,
}
use orb_weaver.StringTools.{size_t_to_string}

-- `status != 0`
abbrev pub is_error : ℤ → Bool
is_error (pos n) = not (n == 0)
is_error (negsuc n) = true

module _ {A : Type 0} where
  -- `port_string` is what `malloc` returns. The result, and what `*address_list` holds.
  unfoldable pub get_local_addresses :
      (getaddrinfo : Bytes → ℤ × List A) → Option Bytes → ℕ → Run (Bool × List A)
  unfolding text
  get_local_addresses getaddrinfo none port = fault null_dereference
  get_local_addresses getaddrinfo (some port_string) port = do
    (converted, port_string') ← size_t_to_string port port_string
    if not converted
        then ok (false, [])
        else (let (status, addresses) = getaddrinfo (text port_string') in
            if is_error status
            then ok (false, addresses)
            else elim addresses [ [] ↦ ok (false, []) | a ∷ rest ↦ ok (true, a ∷ rest) ])

  -- The loop over the nodes of one list, and the nodes that were printed and freed. Where an address
  -- cannot be converted, the loop goes on with the same node.
  unfoldable pub print_loop : (inet_ntop : A → Bool) → ℕ → List A → List A → Run (List A)
  print_loop inet_ntop zero cursor printed = fault out_of_fuel
  print_loop inet_ntop (suc fuel) [] printed = ok printed
  print_loop inet_ntop (suc fuel) (a ∷ cursor) printed =
      let again = print_loop inet_ntop fuel (a ∷ cursor) printed in
      let rest = print_loop inet_ntop fuel cursor (printed ++ a ∷ []) in
      if not (inet_ntop a) then again else rest

-- The lists are those behind the first nodes.
unfoldable pub print_local_addresses :
    {A B : Type 0} → (A → Bool) → (B → Bool) → ℕ → List A → List B → Run (Bool × List A × List B)
unfolding print_loop
print_local_addresses ipv4_ntop ipv6_ntop fuel ipv4_list ipv6_list = do
  ipv4 ← print_loop ipv4_ntop fuel ipv4_list []
  ipv6 ← print_loop ipv6_ntop fuel ipv6_list []
  ok (true, ipv4, ipv6)
