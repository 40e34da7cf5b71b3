-- ===== src/Git/Samples.antt =====
-- A small library to run the manager on: a disk that has every repository but "missing".
use gitrpc.Git.Manager.{Manager}
use Prim.Native.String.{◌++◌ as ◌+++◌}
use text.Mathlib.Text.{◌==◌ as str_eq}
use gitrpc.Prelude.{
  [], ◌∷◌, refl, Bool, true, false, Option, none, some, List, String, if◌then◌else◌, arith,
}
use gitrpc.Git.Library.{Libgit2, over}
use gitrpc.Git.Manager.Open.{IsQuiet, text_differ, some-injective}

-- Whether a call has failed, and the calls made, the last one first.
abbrev pub World : Type 0
World = Bool × List String

abbrev pub logged : String → World → World
logged call (failed_, calls) = (failed_, call ∷ calls)

abbrev pub found : String → World → Option String × World
found path w =
    if str_eq path "/home/rstat1/Apps/test/missing"
    then (none, (true, w.1))
    else (some path, logged "open" w)

abbrev pub disk : Libgit2
disk = record {
  World = World;
  Repository = String;
  Odb = String;
  Writepack = String;
  Oid = String;
  Reference = String;
  RefIterator = String;
  last_error = λ w. if w.0 then some "no such repository" else none;
  repository_open_bare = found;
  repository_open = found;
  repository_odb = λ repo w. (some repo, w);
  repository_free = λ repo w. logged "close" w;
  repository_set_head = λ repo name w. (true, logged "head" w);
  odb_write_pack = λ odb w. (some odb, w);
  odb_free = λ odb w. w;
  writepack_append = λ pack bytes w. (true, logged "append" w);
  writepack_commit = λ pack w. (true, logged "commit" w);
  writepack_free = λ pack w. w;
  oid_fromstr = λ text_ w. (some text_, w);
  reference_create = λ repo name oid w. (some name, logged "reference" w);
  reference_free = λ ref w. w;
  reference_iterator_new = λ repo w. (some repo, w);
  reference_next = λ iter w. (over, w);
  reference_iterator_free = λ iter w. w;
  reference_foreach = λ repo w. ("refs/heads/master" ∷ "refs/heads/next" ∷ [], w);
  reference_name = λ ref. ref;
  repository_init = found;
}

pub disk-IsQuiet : IsQuiet disk
disk-IsQuiet (false, calls) e = ground arith
disk-IsQuiet (true, calls) e = text_differ "no such repository" "success" refl (some-injective e)

-- The manager with "a" open, and after an open of a repository that is not there.
abbrev pub holding : Option String → String → Manager disk
holding pointer name = record {
  current_repo = some (record {
    name = name;
    repo_path = "/home/rstat1/Apps/test/" +++ name;
    repo = pointer;
    odb = pointer;
    wp = pointer;
  });
  repo_ref_cnt = 0;
}

abbrev pub path_a : Option String
path_a = some "/home/rstat1/Apps/test/a"
