-- ===== src/DynamicRouter/Bind.antt =====
-- `bind_route` never binds a route.
use mathlib.Core.Path.{subst}
use orb_weaver.DynamicRouter.Key.{get_key-out_of_bounds}
use orb_weaver.DynamicRouter.{
  Router, BindCalls, type_count, route_size, zero_entry, reserve_slot, add_route, register_route,
  bind_route, get_key,
}
use orb_weaver.Hash.{HashEntry, Slots, hash_add_entry, add_entry, generate_hash_index, empty_slot}
use orb_weaver.Memory.Text.{nonzero, write-set}
use orb_weaver.Memory.{Bytes, read, copy}
use orb_weaver.Prelude.{
  ℕ, zero, suc, ◌+◌, ◌*◌, ◌%◌, ◌^◌, ◌≤◌, ◌<◌, ◌≡◌, refl, Bool, true, false, not, Option, some, [],
  ◌∷◌, ◌++◌, arith, ok, fault, out_of_bounds, Ensures, Ensures-bind, Ensures-if, ltb, leb, ◌==◌,
  ◌||◌, length, replicate, length-replicate, Option-cases, inl, inr, ◌>>=◌,
}

empty_slot-single :
    (e : HashEntry) (h table_size : ℕ)
    → (h == 0) ≡ false
    → empty_slot (some e ∷ []) table_size h ≡ fault out_of_bounds
unfolding empty_slot read
empty_slot-single e zero table_size ne = absurd (ground arith)
empty_slot-single e (suc h) table_size ne = refl

-- A table of a single pointer has no slot at the hash, which is not 0.
add_entry-single :
    (calloc : Bool) (key : Bytes) (key_size : ℕ) (value : Bytes) (value_size : ℕ) (e : HashEntry)
    (table_size : ℕ)
    → Ensures
        (λ r. r.done ≡ false)
        (add_entry calloc key key_size value value_size (some e ∷ []) table_size)
unfolding add_entry
add_entry-single calloc key key_size value value_size e table_size =
    Ensures-bind _ (generate_hash_index (some key) key_size table_size) _ (λ found _.
      elim (Option-cases found) [
        | inl e₀ ↦ rw e₀ refl
        | inr (h, e₀) ↦ rw e₀ (
            Ensures-if _ (leb table_size h || h == 0) _ _ (λ _. refl)
              (λ inside. rw (empty_slot-single e h table_size (ground arith)) tt))
      ])

add_route-done :
    (calls : BindCalls) (key : Bytes) (key_size metadata_size max_num_routes : ℕ)
    → Ensures (λ r. r.done ≡ false) (add_route calls key key_size metadata_size max_num_routes)
unfolding add_route hash_add_entry
add_route-done calls key key_size metadata_size max_num_routes =
    Ensures-if _ (key_size == 0 || metadata_size == 0 || max_num_routes == 0) _ _ (λ _. refl)
      (λ _. add_entry-single calls.entry key key_size calls.pointer metadata_size calls.routes _)

-- The result is `false`.
abbrev pub Refuses : Bool × Router → Type 0
Refuses r = r.0 ≡ false

add_route-Refuses :
    (calls : BindCalls) (key : Bytes) (key_size metadata_size max_num_routes : ℕ) (router : Router)
    → Ensures Refuses (
        add_route calls key key_size metadata_size max_num_routes >>= λ result.
        ok (result.done, router))
add_route-Refuses calls key key_size metadata_size max_num_routes router =
    let refused = add_route-done calls key key_size metadata_size max_num_routes in
    Ensures-bind Refuses (add_route calls key key_size metadata_size max_num_routes) _
      (λ result run. subst (Ensures (λ r. r.done ≡ false)) run refused)

register_route-Refuses :
    (calls : BindCalls) (max_num_routes method path_size : ℕ) (path : Bytes) (table : Slots)
    (router : Router)
    → Ensures Refuses (register_route calls max_num_routes method path_size path table router)
unfolding register_route
register_route-Refuses calls max_num_routes method path_size path table router =
    Ensures-bind Refuses (reserve_slot calls.slot table router.num_routes) _ (λ table' _.
      Ensures-if Refuses (not calls.slot) _ _ (λ _. refl)
        (λ _. Ensures-bind Refuses (get_key path path_size method _ _) _ (λ made _.
          Ensures-if Refuses (not made.0) _ _ (λ _. refl)
            (λ _.
              Ensures-if Refuses (not calls.metadata) _ _ (λ _. refl)
                (λ _. Ensures-bind Refuses (copy path path_size) _ (λ _ _.
                  add_route-Refuses calls made.1 ((path_size + 1) % 2 ^ 64)
                    ((route_size + path_size) % 2 ^ 64) max_num_routes
                    (record router { configured_routes = some table' })))))))

-- Whatever the router holds, whatever the arguments are and the calls of `calloc` return,
-- `bind_route` does not come to the line `if()` behind `hash_add_entry`: where it returns, it returns
-- `false`.
pub bind_route-Refuses :
    (calls : BindCalls) (max_num_routes method path_size : ℕ) (path : Option Bytes)
    (router : Router)
    → Ensures Refuses (bind_route calls max_num_routes method path_size path router)
unfolding bind_route
bind_route-Refuses calls max_num_routes method path_size path router =
    Ensures-if Refuses (not router.initialized) _ _ (λ _. refl)
      (λ _. elim (Option-cases router.configured_routes) [
        | inl e ↦ rw e refl
        | inr (table, e) ↦ rw e (
            Ensures-if Refuses (leb type_count method || ltb path_size 1) _ _ (λ _. refl)
              (λ _. elim (Option-cases path) [
                | inl f ↦ rw f refl
                | inr (p, f) ↦ rw f (
                    Ensures-if Refuses (ltb max_num_routes router.num_routes) _ _ (λ _. refl)
                      (λ _.
                        register_route-Refuses calls max_num_routes method path_size p table
                          router))
              ]))
      ])

-- On an initialised router that has bound at most `max_num_routes` routes, whose table reaches to the
-- slot that is written for the next one, with a known method and a path of `path_size` bytes that
-- are not 0, at least one and fewer than 2^64 - 1, where the first `calloc` succeeds, `bind_route`
-- does not return: `_get_key` writes behind the array `key`.
pub bind_route-out_of_bounds :
    (calls : BindCalls) (max_num_routes method : ℕ) (path rest : Bytes) (router : Router)
    (table : Slots)
    → router.initialized ≡ true
    → router.configured_routes ≡ some table
    → router.num_routes ≤ max_num_routes
    → router.num_routes * 4 + 3 < length table
    → method < type_count
    → nonzero path ≡ true
    → 0 < length path
    → length path + 1 < 2 ^ 64
    → calls.slot ≡ true
    → bind_route calls max_num_routes method (length path) (some (path ++ 0 ∷ rest)) router
      ≡ fault out_of_bounds
unfolding bind_route register_route reserve_slot
bind_route-out_of_bounds calls max_num_routes method path rest router table ready at room slots
      known plain some_byte small got =
    let no_guard : (leb type_count method || ltb (length path) 1) ≡ false = ground arith in
    let below : ltb max_num_routes router.num_routes ≡ false = ground arith in
    let same : (length path + 1) % 2 ^ 64 ≡ length path + 1 = omega arith in
    rw (
      ready,
      at,
      no_guard,
      below,
      got,
      write-set table (router.num_routes * 4 + 3) (some zero_entry) slots,
      same,
      get_key-out_of_bounds path rest method (replicate (length path + 1) calls.junk) plain
          (length-replicate (length path + 1) calls.junk),
    )
