-- ===== src/Runtimes/Installed/Linked.antt =====
-- A shelf whose active link names an installed version: crates/runtime/src/lib.rs.
use fabdev.Prelude.{map_get, ◌≡◌, refl, true, Option, none, some, Text, ok}
use fabdev.Runtimes.Installed.{
  Shelf, validate_identifier, Node, installed, link_name, is_link_free, linked, other, is_dir,
  resolves_to_dir, active_version,
}

-- The active version, if there is one, has a valid name and is a directory.
abbrev pub IsActiveValid : Shelf → Option Text → Type 0
IsActiveValid s none = Unit
IsActiveValid s (some v) = (validate_identifier v ≡ ok tt) × (is_dir (map_get v s.nodes) ≡ true)

-- No directory stands in the place of the link.
abbrev pub IsLinked : Shelf → Type 0
IsLinked s =
    (validate_identifier s.name ≡ ok tt)
    × (map_get link_name s.nodes ≡ none)
    × IsActiveValid s s.active

dir_resolves : (o : Option Node) → is_dir o ≡ true → resolves_to_dir o ≡ true
dir_resolves none h = cc
dir_resolves (some other) h = cc
dir_resolves (some linked) h = cc
dir_resolves (some (installed p)) h = refl

pub free-IsLinked : (s : Shelf) → map_get link_name s.nodes ≡ none → is_link_free s ≡ true
free-IsLinked s free = rw free

pub active_version-IsLinked : (s : Shelf) → IsLinked s → active_version s ≡ ok s.active
unfolding active_version
active_version-IsLinked s (named, free, h) = by_active s.active refl h
  where
    by_active : (a : Option Text) → s.active ≡ a → IsActiveValid s a → active_version s ≡ ok a
    by_active none e h = rw (named, free-IsLinked s free, e, active_version)
    by_active (some v) e (valid, dir) =
        rw (named, free-IsLinked s free, e, active_version)
          (rw (valid, dir_resolves (map_get v s.nodes) dir))
