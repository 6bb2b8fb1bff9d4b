-- ===== src/Menu/Devices.antt =====
-- The colon after a device's name in Projects/OS161/kern/main/menu.c.
use windborne.Base.{◌≡◌, ◌≢◌, refl, arith, [], ◌∷◌, ◌++◌, ok}
use windborne.Menu.Words.{Bytes}
use windborne.Menu.Environment.{Options, Kernel}
use windborne.Menu.Commands.{strip_colon, cmd_mount, cmd_unmount, cmd_bootfs}

-- The text has a last byte, and it is no colon.
abbrev pub IsBare : Bytes → Type 0
IsBare [] = ⊥
IsBare (c ∷ []) = c ≢ b':'
IsBare (c ∷ (d ∷ s)) = IsBare (d ∷ s)

strip_bare : (s : Bytes) → IsBare s → strip_colon s ≡ ok s
strip_bare [] h = absurd h
strip_bare (c ∷ []) h = ground arith
strip_bare (c ∷ (d ∷ s)) h = rw (strip_bare (d ∷ s) h) refl

strip_colon_lem : (s : Bytes) → IsBare s → strip_colon (s ++ b':' ∷ []) ≡ ok s
strip_colon_lem [] h = absurd h
strip_colon_lem (c ∷ []) h = refl
strip_colon_lem (c ∷ (d ∷ s)) h = rw (strip_colon_lem (d ∷ s) h) refl

module _ (K : Kernel) (O : Options) (device : Bytes) (bare : IsBare device) (name : Bytes)
    (w : K.World) where
  -- For a device's name that has a last byte, which is no colon, `cmd_mount`, `cmd_unmount` and `cmd_bootfs` do the
  -- same with a colon behind the name as without, and the last two pass the name without the colon on.
  pub colon_optional :
      ((fstype : Bytes)
        → cmd_mount K O (name ∷ fstype ∷ (device ++ b':' ∷ []) ∷ []) w
          ≡ cmd_mount K O (name ∷ fstype ∷ device ∷ []) w)
      × (cmd_unmount K O (name ∷ (device ++ b':' ∷ []) ∷ []) w ≡ ok (K.vfs_unmount device w))
      × (cmd_unmount K O (name ∷ device ∷ []) w ≡ ok (K.vfs_unmount device w))
      × (cmd_bootfs K O (name ∷ (device ++ b':' ∷ []) ∷ []) w ≡ ok (K.vfs_setbootfs device w))
      × (cmd_bootfs K O (name ∷ device ∷ []) w ≡ ok (K.vfs_setbootfs device w))
  unfolding cmd_mount cmd_unmount cmd_bootfs
  colon_optional =
      rw (strip_colon_lem device bare, strip_bare device bare)
        (λ fstype. refl, refl, refl, refl, refl)
