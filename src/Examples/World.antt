-- ===== src/Examples/World.antt =====
-- A server with one administrator, two sources and one combined subscription.
use sub_merge.Base.{ℕ, refl, inr, Option, none, some, List, [], ◌∷◌, ◌++◌, map, arith}
use sub_merge.Base.Text.{Text, str, eqb, utf8, is_whitespace, drop_while, drop_end, trim}
use sub_merge.Base.Tests.{if◌then◌else◌}
use sub_merge.Base.Keys.{has}
use sub_merge.Crates.{Yaml, Entries, Crates}
use sub_merge.Server.Service.{run_task, Merged, rows_or_error, merge_joined, merges}
use sub_merge.Server.Sessions.{Session}
use sub_merge.Server.Users.{valid_username}
use sub_merge.Server.Sources.{SourceDto, select_rows}
use sub_merge.Server.Combineds.{Combined, is_member}
use sub_merge.Server.App.{App, Call, MergesSources}
use sub_merge.Server.Store.{Store}
use sub_merge.Server.Store.Valid.{WellFormed}
use sub_merge.Server.Routes.Names.{valid_combined_name}
use sub_merge.Server.Combineds.Names.{used}
use sub_merge.Examples.Logins.{clock, plain_argon, root}
use sub_merge.Examples.Merging.{client}
use mathlib.Core.List.Permᴰ
use sub_merge.Crates.Sample

abbrev pub session : Session
session = record { token_hash = str "t1"; created_at = 0 ∷ []; last_used_at = 0 ∷ [] }

abbrev pub yaml_crates : Crates
yaml_crates = record Sample.sample {
  yaml_from_str = λ s. inr (Yaml.mapping Entries.end);
  yaml_to_string = λ v. inr (str "printed");
}

abbrev pub app : App
app = record {
  crates = yaml_crates;
  clock = clock;
  argon = plain_argon;
  client = client;
  session_ttl_days = 30;
  max_nodes = 5;
}

abbrev pub header : Text → Text → Option (Option Text)
header bearer name =
    if eqb name (str "authorization")
    then some (some (str "Bearer " ++ bearer))
    else if eqb name (str "host")
    then some (some (str "h.io"))
    else none

-- The tasks end in the order of the sources.
abbrev pub merged_in_order : Option (List ℕ) → List SourceDto → Merged
merged_in_order ids ss =
    let rows = rows_or_error ids (inr (select_rows ids ss)) in
    merge_joined 5 rows.1 (map (run_task yaml_crates client 5) rows.0)

abbrev pub call_with : Text → Call
call_with bearer = record {
  now = 5;
  headers = header bearer;
  fresh_token = str "t2";
  merge = merged_in_order;
}

abbrev pub admin : Call
admin = call_with (str "t1")

pub admin-MergesSources : MergesSources app admin
admin-MergesSources ids ss = merges (Permᴰ.refl _)

abbrev pub source_row : ℕ → Text → Text → SourceDto
source_row id kind url = record {
  id = id;
  url = url;
  name = str "s";
  kind = kind;
  created_at = str "c";
}

abbrev pub home : Combined
home = record { id = 1; name = str "home"; created_at = str "c" }

abbrev pub world : Store
world = record {
  users = root ∷ [];
  sessions = session ∷ [];
  settings = [];
  sources =
      source_row 1 (str "single") (str "nonsense") ∷ source_row 2 (str "remote") (str "u") ∷ [];
  last_source = 2;
  combineds = home ∷ [];
  last_combined = 1;
  members = (1, 1) ∷ [];
}

pub world-WellFormed : WellFormed world
unfolding has is_member used valid_username trim drop_while drop_end is_whitespace utf8 eqb
    valid_combined_name
world-WellFormed = record {
  users = record { at_most_one = omega arith; valid_names = (refl, tt) };
  sources = record { keys = (omega arith, (omega arith, omega arith)); kinds = (refl, (refl, tt)) };
  combineds = record {
    keys = (omega arith, omega arith);
    valid_names = (refl, tt);
    distinct_names = (refl, tt);
  };
  members = (((refl, refl), tt), (refl, tt));
}
