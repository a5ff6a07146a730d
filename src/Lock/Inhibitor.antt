-- ===== src/Lock/Inhibitor.antt =====
-- src/lock/inhibitor.rs: the registry of inhibitor locks, which are global and not per session.
pub mod Laws
use mitos_session.Base.{
  ℕ, Bool, true, false, ◌&&◌, none, some, List, [], inc_u64, select, any, Text,
}
use mitos_session.Base.Map.{Map, values, lookup, insert, remove, id_key}
use mitos_session.Errors.{unknown_inhibitor, Result, ok, err}

pub data InhibitWhat : Type 0 where
  idle lock suspend shutdown : InhibitWhat

pub data InhibitMode : Type 0 where
  block delay : InhibitMode

pub record Inhibitor : Type 0 where
  pub id : ℕ
  pub what : InhibitWhat
  pub who : Text
  pub why : Text
  pub mode : InhibitMode

pub record InhibitorRegistry : Type 0 where
  pub inhibitors : Map ℕ Inhibitor
  pub next_id : ℕ

abbrev pub empty_registry : InhibitorRegistry
empty_registry = record { inhibitors = []; next_id = 0 }

-- `#[derive(PartialEq)]` on both enums.
abbrev pub same_what : InhibitWhat → InhibitWhat → Bool
same_what idle idle = true
same_what lock lock = true
same_what suspend suspend = true
same_what shutdown shutdown = true
same_what _ _ = false

abbrev pub same_mode : InhibitMode → InhibitMode → Bool
same_mode block block = true
same_mode delay delay = true
same_mode _ _ = false

unfoldable pub add :
    InhibitorRegistry → InhibitWhat → Text → Text → InhibitMode → ℕ × InhibitorRegistry
add r what who why mode =
    let id = inc_u64 r.next_id in
    (
      id,
      record {
        inhibitors =
            insert id (record { id = id; what = what; who = who; why = why; mode = mode })
              r.inhibitors;
        next_id = id;
      },
    )

-- `remove`; the name of the map operation is taken.
unfoldable pub remove_inhibitor : InhibitorRegistry → ℕ → Result InhibitorRegistry
remove_inhibitor r id = elim (lookup id r.inhibitors) [
  | none ↦ err (unknown_inhibitor id)
  | some i ↦ ok (record r { inhibitors = remove id r.inhibitors })
]

abbrev pub holds : InhibitWhat → InhibitMode → Inhibitor → Bool
holds what mode i = same_what i.what what && same_mode i.mode mode

unfoldable pub blocks : InhibitorRegistry → InhibitWhat → Bool
blocks r what = any (holds what block) (values r.inhibitors)

unfoldable pub delays : InhibitorRegistry → InhibitWhat → List Inhibitor
delays r what = select (holds what delay) (values r.inhibitors)

unfoldable pub list : InhibitorRegistry → List Inhibitor
list r = values r.inhibitors
