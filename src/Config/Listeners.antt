-- ===== src/Config/Listeners.antt =====
-- Listeners are called in the order of their registration, under keys that are not used twice.
use sylar_server_study.Base.{
  ℕ, suc, ◌+◌, ◌%◌, ◌^◌, true, if◌then◌else◌, ◌==◌, ltb, List, [], ◌∷◌, ◌++◌, some, all, ◌≡◌, ◌<◌,
  refl, arith,
}
use sylar_server_study.Config.{
  Cast, Callback, Var, put, erase, at_key, call_all, add_listener, del_listener, get_listener,
  set_value,
}

-- Every key was handed out before.
abbrev pub AllUpTo : {A : Type 0} → ℕ → List (ℕ × A) → Type 0
AllUpTo n cs = all (λ c. ltb c.0 (suc n)) cs ≡ true

put_new :
    {A : Type 0} (n : ℕ) (cb : A) (cs : List (ℕ × A))
    → AllUpTo n cs
    → put (suc n) cb cs ≡ cs ++ (suc n, cb) ∷ []
unfolding put
put_new n cb [] h = refl
put_new n cb ((k, c) ∷ cs) h = ground (arith, put_new n cb cs)

erase_new :
    {A : Type 0} (n : ℕ) (cb : A) (cs : List (ℕ × A))
    → AllUpTo n cs
    → erase (suc n) (cs ++ (suc n, cb) ∷ []) ≡ cs
unfolding erase
erase_new n cb [] h = ground arith
erase_new n cb ((k, c) ∷ cs) h = ground (arith, erase_new n cb cs)

at_key-append :
    {A : Type 0} (n : ℕ) (cb : A) (cs : List (ℕ × A)) (key : ℕ)
    → AllUpTo n cs
    → at_key key (cs ++ (suc n, cb) ∷ []) ≡ (if key == suc n then some cb else at_key key cs)
unfolding at_key
at_key-append n cb [] key h = ground arith
at_key-append n cb ((k, c) ∷ cs) key h = ground (arith, at_key-append n cb cs key)

module _ {T W : Type 0} where
  call_all-append :
      (cs : List (ℕ × Callback T W)) (key : ℕ) (cb : Callback T W) (old new : T) (w : W)
      → call_all (cs ++ (key, cb) ∷ []) old new w ≡ cb old new (call_all cs old new w)
  unfolding call_all
  call_all-append [] key cb old new w = refl
  call_all-append ((k, c) ∷ cs) key cb old new w = call_all-append cs key cb old new (c old new w)

  added :
      (n : ℕ) (v : Var T W) (cb : Callback T W)
      → suc n < 2 ^ 64
      → AllUpTo n v.cbs
      → add_listener n v cb ≡ (suc n, record v { cbs = v.cbs ++ (suc n, cb) ∷ [] })
  unfolding add_listener
  added n v cb small h =
      let id : (n + 1) % 2 ^ 64 ≡ suc n = omega arith in rw (id, put_new n cb v.cbs h)

  -- A new listener is found under its new key, and every other key leads where it did. Fewer than
  -- 2^64 - 1 keys have been handed out, and the keys of the variable are among them.
  pub get_listener-add_listener :
      (n key : ℕ) (v : Var T W) (cb : Callback T W)
      → suc n < 2 ^ 64
      → AllUpTo n v.cbs
      → get_listener key (add_listener n v cb).1
        ≡ (if key == (add_listener n v cb).0 then some cb else get_listener key v)
  unfolding get_listener
  get_listener-add_listener n key v cb small h =
      rw (added n v cb small h) (at_key-append n cb v.cbs key h)

  -- To delete a listener that was just added gives the variable back. Fewer than 2^64 - 1 keys
  -- have been handed out, and the keys of the variable are among them.
  pub del_listener-add_listener :
      (n : ℕ) (v : Var T W) (cb : Callback T W)
      → suc n < 2 ^ 64
      → AllUpTo n v.cbs
      → del_listener (add_listener n v cb).0 (add_listener n v cb).1 ≡ v
  unfolding del_listener
  del_listener-add_listener n v cb small h = rw (added n v cb small h, erase_new n cb v.cbs h)

  -- A change of the value calls a listener that was just added once, after all others, with the
  -- old and the new value; setting an equal value calls none. Fewer than 2^64 - 1 keys have been
  -- handed out, and the keys of the variable are among them.
  pub set_value-add_listener :
      (n : ℕ) (v : Var T W) (cb : Callback T W) (c : Cast T) (x : T) (w : W)
      → suc n < 2 ^ 64
      → AllUpTo n v.cbs
      → (set_value c (add_listener n v cb).1 x w).1
        ≡ (if c.equal x v.value then w else cb v.value x (set_value c v x w).1)
  unfolding set_value
  set_value-add_listener n v cb c x w small h =
      rw (added n v cb small h) (ground (arith, call_all-append v.cbs (suc n) cb v.value x w))
