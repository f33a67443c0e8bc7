-- ===== src/ConnectionHandler/Bind.antt =====
-- `find_bind` is a first-fit search.
use orb_weaver.ConnectionHandler.{Sockets, bind_loop, find_bind}
use orb_weaver.Prelude.{
  ◌≡◌, refl, Bool, true, false, not, ◌&&◌, Option, none, some, List, [], ◌∷◌, ◌++◌, if◌then◌else◌,
  ℤ, negsuc, is_negative, ◌∙◌, Bool-cases, inl, inr,
}
use mathlib.Core.List.{append-nil, append_assoc}

module _ {A : Type 0} (socket : A → ℤ) (bind : ℤ → A → ℤ) where
  -- The address can be bound.
  abbrev pub usable : A → Bool
  usable a = not (is_negative (socket a)) && not (is_negative (bind (socket a) a))

  -- The first address that can be bound.
  abbrev pub first_fit : List A → Option A
  first_fit [] = none
  first_fit (a ∷ rest) = if usable a then some a else first_fit rest

  -- The sockets in front of the first fit that were opened in vain.
  abbrev pub misses : List A → List ℤ
  misses [] = []
  misses (a ∷ rest) =
      if usable a then [] else (if is_negative (socket a) then [] else socket a ∷ []) ++ misses rest

  abbrev pub is_some : Option A → Bool
  is_some none = false
  is_some (some _) = true

  -- What `find_bind` leaves where the search ends with `found`.
  abbrev pub Leaves : Option A → List ℤ → Sockets A → Sockets A → Type 0
  Leaves none closed s s' =
      (is_negative s'.socket_descriptor ≡ true)
      × (s'.bound_address ≡ s.bound_address)
      × (s'.closed ≡ s.closed ++ closed)
  Leaves (some a) closed s s' =
      (is_negative s'.socket_descriptor ≡ false)
      × (s'.socket_descriptor ≡ socket a)
      × (s'.bound_address ≡ some a)
      × (s'.closed ≡ s.closed ++ closed)

  later-Leaves :
      (found : Option A) (pre closed : List ℤ) (s t s' : Sockets A)
      → t.bound_address ≡ s.bound_address
      → t.closed ≡ s.closed ++ pre
      → Leaves found closed t s'
      → Leaves found (pre ++ closed) s s'
  later-Leaves none pre closed s t s' bound shut (d, b, c) =
      (d, b ∙ bound, c ∙ rw shut (append_assoc s.closed pre closed))
  later-Leaves (some a) pre closed s t s' bound shut (d, e, b, c) =
      (d, e, b, c ∙ rw shut (append_assoc s.closed pre closed))

  bind_loop-Leaves :
      (addresses : List A) (s : Sockets A)
      → is_negative s.socket_descriptor ≡ true
      → Leaves (first_fit addresses) (misses addresses) s (bind_loop socket bind addresses s)
  unfolding bind_loop
  bind_loop-Leaves [] s h = (h, refl, rw append-nil)
  bind_loop-Leaves (a ∷ rest) s h = elim (Bool-cases (is_negative (socket a))) [
    | inl no_socket ↦
        let t : Sockets A = record s { socket_descriptor = socket a } in
        rw no_socket (
          later-Leaves (first_fit rest) [] (misses rest) s t (bind_loop socket bind rest t) refl
            (rw append-nil) (bind_loop-Leaves rest t no_socket))
    | inr opened ↦ elim (Bool-cases (is_negative (bind (socket a) a))) [
      | inl no_bind ↦
          let t : Sockets A = record s {
            socket_descriptor = negsuc 0;
            closed = s.closed ++ socket a ∷ [];
          } in
          rw (opened, no_bind)
            (later-Leaves (first_fit rest) (socket a ∷ []) (misses rest) s t
              (bind_loop socket bind rest t) refl refl (bind_loop-Leaves rest t refl))
      | inr bound ↦ rw (opened, bound) (opened, refl, refl, rw append-nil)
    ]
  ]

  -- With no descriptor at the start, `find_bind` says whether some address can be bound; it binds the
  -- first such address and leaves its socket open, and it has closed exactly the sockets that it
  -- opened for the addresses before.
  pub find_bind-first_fit :
      (addresses : List A) (s : Sockets A)
      → is_negative s.socket_descriptor ≡ true
      → ((find_bind socket bind addresses s).0 ≡ is_some (first_fit addresses))
        × Leaves (first_fit addresses) (misses addresses) s (find_bind socket bind addresses s).1
  unfolding find_bind
  find_bind-first_fit addresses s h =
      let left = bind_loop-Leaves addresses s h in
      (says (first_fit addresses) (bind_loop socket bind addresses s) left, left)
    where
      says :
          (found : Option A) (s' : Sockets A)
          → Leaves found (misses addresses) s s'
          → not (is_negative s'.socket_descriptor) ≡ is_some found
      says none s' l = rw l.0
      says (some a) s' l = rw l.0
