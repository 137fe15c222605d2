-- ===== src/Config/Reading.antt =====
-- What reading a configuration promises the plugin that is built from it.
use go_sarah.Shared.{
  ℕ, ◌≡◌, refl, sym, subst, ◌∙◌, ◌≢◌, true, false, Option, none, some, arith, nat_eq, Text, text_eq,
  ok, err,
}
use go_sarah.Errors.{Error, is_not_found}
use go_sarah.Locker
use go_sarah.Config.{
  Config, is_pointer, pointer, value, Heap, Read, Plugins, ConfigWrapper, deref, read_failed,
  read_config, load_config, checked,
}

module _ {V : Type 0} (read : Read V) (b id : Text) where
  -- The value that a loaded plugin sees: the one that `Read` leaves, except that a value whose
  -- `Read` failed stays as it was.
  unfoldable pub seen : Config V → Heap V → V
  seen (pointer a) h = (read b id (h a)).0
  seen (value v) h = elim (read b id v).1 [ none ↦ (read b id v).0 | some e ↦ v ]

  abbrev error_of : Config V → Heap V → Option Error
  error_of cfg h = (read b id (deref h cfg)).1

  read_config_error :
      (cfg : Config V) (h : Heap V) → (read_config read b id cfg h).2 ≡ error_of cfg h
  unfolding read_config deref
  read_config_error (pointer a) h = refl
  read_config_error (value v) h = refl

  deref-read_config :
      (cfg : Config V) (h : Heap V)
      → deref (read_config read b id cfg h).1 (read_config read b id cfg h).0 ≡ seen cfg h
  unfolding read_config deref seen
  deref-read_config (pointer a) h = ground arith
  deref-read_config (value v) h = ground arith

  is_pointer-read_config :
      (cfg : Config V) (h : Heap V) → is_pointer (read_config read b id cfg h).0 ≡ is_pointer cfg
  unfolding read_config
  is_pointer-read_config (pointer a) h = refl
  is_pointer-read_config (value v) h = ground arith

  -- `Read` succeeded, or found no configuration.
  abbrev pub Acceptable : Option Error → Type 0
  Acceptable none = Unit {0}
  Acceptable (some e) = is_not_found e ≡ true

  checked-Acceptable :
      (w : ConfigWrapper V) (e : Option Error) → Acceptable e → checked b id w e ≡ ok w
  unfolding checked
  checked-Acceptable w none h = refl
  checked-Acceptable w (some e) h = rw h

  checked_refused :
      (w : ConfigWrapper V) (e : Option Error) (x : Error)
      → e ≡ some x
      → is_not_found x ≡ false
      → checked b id w e ≡ err (read_failed b id x)
  unfolding checked
  checked_refused w e x q h = rw (q, checked, h)

  -- A configuration that is read, or not found, gives a wrapper under the plugin's own lock, of the same kind, behind
  -- which the plugin sees what `Read` left, or the old value if it is no pointer and was not found.
  pub load_config_accepted :
      (cfg : Config V) (s : Plugins V)
      → Acceptable (error_of cfg s.heap)
      → let (s', r) = load_config read b id cfg s in
        (w : ConfigWrapper V) × (r ≡ ok w)
        × (deref s'.heap w.value ≡ seen cfg s.heap)
        × (w.mutex ≡ (Locker.get b id s.locker).1)
        × (is_pointer w.value ≡ is_pointer cfg)
  unfolding load_config
  load_config_accepted cfg s h =
      let (locker', mutex) = Locker.get b id s.locker in
      let (cfg', heap', e) = read_config read b id cfg s.heap in
      (
        record { value = cfg'; mutex = mutex },
        checked-Acceptable (record { value = cfg'; mutex = mutex }) e
            (subst Acceptable (sym (read_config_error cfg s.heap)) h),
        deref-read_config cfg s.heap,
        refl,
        is_pointer-read_config cfg s.heap,
      )

  -- Any other error of `Read` is the result, wrapped with the plugin's name.
  pub load_config_refused :
      (cfg : Config V) (s : Plugins V) (x : Error)
      → error_of cfg s.heap ≡ some x
      → is_not_found x ≡ false
      → (load_config read b id cfg s).1 ≡ err (read_failed b id x)
  unfolding load_config
  load_config_refused cfg s x q h = checked_refused _ _ x (read_config_error cfg s.heap ∙ q) h

  -- Reading writes to the struct behind the plugin's own pointer only, and to none for a value.
  pub load_config_elsewhere :
      (cfg : Config V) (s : Plugins V) (a : ℕ)
      → cfg ≢ pointer a
      → (load_config read b id cfg s).0.heap a ≡ s.heap a
  unfolding load_config read_config
  load_config_elsewhere (pointer c) s a h = ground (arith, h)
  load_config_elsewhere (value v) s a h = refl
