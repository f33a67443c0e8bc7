-- ===== src/Tests/Router.antt =====
-- A router with a table of eight slots, and the route "/a".
use orb_weaver.DynamicRouter.Bind.{Refuses, bind_route-Refuses, bind_route-out_of_bounds}
use orb_weaver.DynamicRouter.{
  Router, BindCalls, zero_entry, initialize, reserve_slot, get_key, key_loop, register_route,
  bind_route,
}
use orb_weaver.Hash.{hash_allocate}
use orb_weaver.Memory.{codes, c_string, write}
use orb_weaver.Prelude.{
  ◌≡◌, refl, true, false, some, none, [], ◌∷◌, arith, ok, fault, out_of_bounds, Ensures, replicate,
}

abbrev at_start : Router
at_start = record {
  initialized = false;
  configured_routes = none;
  max_num_routes = 0;
  num_routes = 0;
}

abbrev router : Router
router = record {
  initialized = true;
  configured_routes = some (replicate 8 none);
  max_num_routes = 4;
  num_routes = 0;
}

initializes : initialize true 4 at_start ≡ (true, router)
unfolding initialize hash_allocate
initializes = refl

abbrev calls : BindCalls
calls = record {
  slot = true;
  metadata = true;
  entry = true;
  junk = 170;
  pointer = replicate 8 1;
  routes = zero_entry;
}

-- With a `path_size` that counts the closing 0, the key fits, and `calloc` fails behind it.
refused :
    bind_route (record calls { metadata = false }) 4 1 3 (some (c_string "/a")) router
    ≡ ok (
      false,
      record router {
        configured_routes =
            some (none ∷ none ∷ none ∷ some zero_entry ∷ none ∷ none ∷ none ∷ none ∷ []);
      },
    )
unfolding bind_route register_route reserve_slot get_key key_loop write
refused = refl

bind_route-Refuses_example :
    Ensures Refuses
      (bind_route (record calls { metadata = false }) 4 1 3 (some (c_string "/a")) router)
bind_route-Refuses_example =
    bind_route-Refuses (record calls { metadata = false }) 4 1 3 (some (c_string "/a")) router

bind_route-out_of_bounds_example :
    bind_route calls 4 1 2 (some (c_string "/a")) router ≡ fault out_of_bounds
bind_route-out_of_bounds_example =
    bind_route-out_of_bounds calls 4 1 (codes "/a") [] router (replicate 8 none) refl refl
      (omega arith) (omega arith) (omega arith) refl (omega arith) (omega arith) refl
