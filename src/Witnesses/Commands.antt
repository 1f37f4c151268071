-- ===== src/Witnesses/Commands.antt =====
-- The export of a small skill.
use traversal.Base.{◌≡◌, refl, String, true, false, none, List, [], some_of, if◌then◌else◌}
use traversal.Exceptions.{return}
use traversal.Command.{
  skill, exports, main, file, dir, Entries, empty, entry, is_skipped, Machine, export_skill,
}
use traversal.Command.Copy.{is_sound}
use traversal.Command.Export.{entry_at, export_skill-entries}
use traversal.Coordinator.Samples.{empty_store}

abbrev scripts : Entries
scripts =
    entry "quickstart.py" (file "print()")
      (entry "old.pyc" (file "0") (entry "__pycache__" (dir (entry "x" (file "1") empty)) empty))

abbrev machine : Machine
machine = record {
  is_file = λ path. false;
  exists = λ path. false;
  package_skill = entry "SKILL.md" (file "text") (entry "scripts" (dir scripts) empty);
  schema = λ path. record { version = 0; tables = []; others = []; node_columns = [] };
  database = λ path. empty_store;
}

exported :
    main machine (skill "out")
    ≡ return (
        exports "out" (
          entry "SKILL.md"
            (file "text")
            (entry "scripts" (dir (entry "quickstart.py" (file "print()") empty)) empty)))
unfolding main
exported = refl

sound : is_sound machine.package_skill ≡ true
unfolding is_sound
sound = refl

export_skill-entries_example :
    (made : Entries) × (export_skill machine "out" ≡ return made)
    × ((path : List String)
        → entry_at made path
          ≡ (if some_of is_skipped path then none else entry_at machine.package_skill path))
export_skill-entries_example = export_skill-entries machine "out" sound refl
