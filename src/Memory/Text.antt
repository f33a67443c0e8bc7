-- ===== src/Memory/Text.antt =====
-- The text of a C string, and what the memory operations do inside their block.
use orb_weaver.Memory.{Bytes, paste, write_at, read, write, copy, strcmp_equal}
use orb_weaver.Prelude.{
  ℕ, zero, suc, ◌≤◌, ◌<◌, ◌≡◌, refl, ◌↔◌, ◌&&◌, not, Bool, true, false, List, [], ◌∷◌, ◌++◌, arith,
  ok, fault, out_of_bounds, ◌==◌, if◌then◌else◌, length, get_or, set, take, drop, ◌+◌, ap,
}

-- The bytes before the first `'\0'`.
unfoldable pub text : Bytes → Bytes
text [] = []
text (c ∷ cs) = if c == 0 then [] else c ∷ text cs

-- Some byte is `'\0'`.
unfoldable pub terminated : Bytes → Bool
terminated [] = false
terminated (c ∷ cs) = if c == 0 then true else terminated cs

unfoldable pub equal : Bytes → Bytes → Bool
equal [] [] = true
equal (x ∷ a) (y ∷ b) = x == y && equal a b
equal _ _ = false

pub equal_iff : (left right : Bytes) → (equal left right ≡ true) ↔ (left ≡ right)
unfolding equal
equal_iff [] [] = ground arith
equal_iff [] (c ∷ right) = ground arith
equal_iff (c ∷ left) [] = ground arith
equal_iff (c ∷ left) (d ∷ right) = ground (arith, equal_iff left right)

pub strcmp_equal-text :
    (a b : Bytes)
    → terminated a ≡ true
    → terminated b ≡ true
    → strcmp_equal a b ≡ ok (equal (text a) (text b))
unfolding strcmp_equal text terminated equal
strcmp_equal-text [] b s t = cc
strcmp_equal-text (x ∷ a) [] s t = cc
strcmp_equal-text (x ∷ a) (y ∷ b) s t = ground (arith, strcmp_equal-text a b)

-- A copied text that is closed by a `'\0'`.
pub text-append_nul :
    (a b : Bytes) (n : ℕ) → n ≤ length (text a) → text (take n a ++ 0 ∷ b) ≡ take n (text a)
unfolding text
text-append_nul a b zero h = refl
text-append_nul [] b (suc n) h = absurd (omega arith)
text-append_nul (x ∷ a) b (suc n) h = ground (arith, text-append_nul a b n)

pub terminated-append_nul : (a b : Bytes) → terminated (a ++ 0 ∷ b) ≡ true
unfolding terminated
terminated-append_nul [] b = refl
terminated-append_nul (x ∷ a) b = ground (arith, terminated-append_nul a b)

module _ {ℓ} {A : Type ℓ} where
  pub read-get_or : (xs : List A) (i : ℕ) (d : A) → i < length xs → read xs i ≡ ok (get_or xs i d)
  unfolding read
  read-get_or [] i d h = absurd (omega arith)
  read-get_or (x ∷ xs) zero d h = refl
  read-get_or (x ∷ xs) (suc i) d h = read-get_or xs i d (omega arith)

  pub write-set : (xs : List A) (i : ℕ) (v : A) → i < length xs → write xs i v ≡ ok (set xs i v)
  unfolding write
  write-set [] i v h = absurd (omega arith)
  write-set (x ∷ xs) zero v h = refl
  write-set (x ∷ xs) (suc i) v h = rw (write-set xs i v (omega arith))

  pub copy-take : (xs : List A) (n : ℕ) → n ≤ length xs → copy xs n ≡ ok (take n xs)
  unfolding copy
  copy-take xs zero h = refl
  copy-take [] (suc n) h = absurd (omega arith)
  copy-take (x ∷ xs) (suc n) h = rw (copy-take xs n (omega arith))

pub length-text-le : (a : Bytes) → length (text a) ≤ length a
unfolding text
length-text-le [] = omega arith
length-text-le (x ∷ a) = ground (arith, length-text-le a)

pub take-length-text : (a : Bytes) → take (length (text a)) a ≡ text a
unfolding text
take-length-text [] = refl
take-length-text (x ∷ a) = ground (arith, take-length-text a)

pub write-append :
    (front : Bytes) (y c : ℕ) (back : Bytes)
    → write (front ++ y ∷ back) (length front) c ≡ ok (front ++ c ∷ back)
unfolding write
write-append [] y c back = refl
write-append (x ∷ front) y c back = rw (write-append front y c back)

-- No byte is 0.
abbrev pub nonzero : Bytes → Bool
nonzero [] = true
nonzero (c ∷ cs) = not (c == 0) && nonzero cs

pub text-nonzero : (xs zs : Bytes) → nonzero xs ≡ true → text (xs ++ 0 ∷ zs) ≡ xs
unfolding text
text-nonzero [] zs h = refl
text-nonzero (c ∷ xs) zs h = ground (arith, text-nonzero xs zs)

pub paste-drop :
    (xs buffer : Bytes)
    → length xs ≤ length buffer
    → paste xs buffer ≡ ok (xs ++ drop (length xs) buffer)
unfolding paste
paste-drop [] buffer h = refl
paste-drop (x ∷ xs) [] h = absurd (omega arith)
paste-drop (x ∷ xs) (y ∷ buffer) h = rw (paste-drop xs buffer (omega arith))

pub paste-front :
    (source destination : Bytes)
    → length source ≤ length destination
    → (d : Bytes) × (paste source destination ≡ ok d)
      × (length d ≡ length destination)
      × (take (length source) d ≡ source)
unfolding paste
paste-front [] destination h = (destination, refl, refl, refl)
paste-front (c ∷ source) [] h = absurd (omega arith)
paste-front (c ∷ source) (x ∷ destination) h =
    let (d, run, len, front) = paste-front source destination (omega arith) in
    (c ∷ d, rw run, ap suc len, ap (◌∷◌ c) front)

-- A copy behind the first `i` bytes.
pub write_at-take :
    (destination source : Bytes) (i : ℕ)
    → i + length source ≤ length destination
    → (d : Bytes) × (write_at destination i source ≡ ok d)
      × (length d ≡ length destination)
      × (take (i + length source) d ≡ take i destination ++ source)
unfolding write_at
write_at-take destination source zero h =
    let z : 0 + length source ≡ length source = omega arith in
    rw z (paste-front source destination (omega arith))
write_at-take [] source (suc i) h = absurd (omega arith)
write_at-take (c ∷ destination) source (suc i) h =
    let (d, run, len, front) = write_at-take destination source i (omega arith) in
    let k : suc i + length source ≡ suc (i + length source) = omega arith in
    (c ∷ d, rw run, ap suc len, rw k (ap (◌∷◌ c) front))

paste-behind :
    (source destination : Bytes)
    → length source ≤ length destination
    → (d : Bytes) × (paste source destination ≡ ok d)
      × (drop (length source) d ≡ drop (length source) destination)
unfolding paste
paste-behind [] destination h = (destination, refl, refl)
paste-behind (c ∷ source) [] h = absurd (omega arith)
paste-behind (c ∷ source) (x ∷ destination) h =
    let (d, run, behind) = paste-behind source destination (omega arith) in (c ∷ d, rw run, behind)

-- A copy leaves what stands behind it.
pub write_at-drop :
    (destination source : Bytes) (i : ℕ)
    → i + length source ≤ length destination
    → (d : Bytes) × (write_at destination i source ≡ ok d)
      × (drop (i + length source) d ≡ drop (i + length source) destination)
unfolding write_at
write_at-drop destination source zero h =
    let z : 0 + length source ≡ length source = omega arith in
    rw z (paste-behind source destination (omega arith))
write_at-drop [] source (suc i) h = absurd (omega arith)
write_at-drop (c ∷ destination) source (suc i) h =
    let (d, run, behind) = write_at-drop destination source i (omega arith) in
    let k : suc i + length source ≡ suc (i + length source) = omega arith in
    (c ∷ d, rw run, rw k behind)

pub write-outside : (xs : Bytes) (i v : ℕ) → length xs ≤ i → write xs i v ≡ fault out_of_bounds
unfolding write
write-outside [] i v h = refl
write-outside (x ∷ xs) zero v h = absurd (omega arith)
write-outside (x ∷ xs) (suc i) v h = rw (write-outside xs i v (omega arith))

paste-outside :
    (source destination : Bytes)
    → length destination < length source
    → paste source destination ≡ fault out_of_bounds
unfolding paste
paste-outside [] destination h = absurd (omega arith)
paste-outside (c ∷ source) [] h = refl
paste-outside (c ∷ source) (x ∷ destination) h = rw (paste-outside source destination (omega arith))

pub write_at-outside :
    (destination source : Bytes) (i : ℕ)
    → 0 < length source
    → length destination < i + length source
    → write_at destination i source ≡ fault out_of_bounds
unfolding write_at
write_at-outside destination source zero some_bytes h =
    paste-outside source destination (omega arith)
write_at-outside [] source (suc i) some_bytes h = refl
write_at-outside (c ∷ destination) source (suc i) some_bytes h =
    rw (write_at-outside destination source i some_bytes (omega arith))
