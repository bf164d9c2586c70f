-- ===== src/Tests/Samples.antt =====
-- Units, and the graph that they are built into.
use winunitd.Common.{Option, some, List, [], ◌∷◌, ◌≡◌, refl, filter}
use winunitd.Common.Result.{ok}
use winunitd.Common.Text.{Text, bytes, text_eq, to_lower, trim_space, has_suffix}
use winunitd.Unit.Name.{normalize_name}
use winunitd.Core.Names.{unique_stable}
use winunitd.Core.Graph.{UnitSpec, Node, Graph, build, new_node, is_loaded}

abbrev pub db : Text
db = bytes "db.service"

abbrev pub app : Text
app = bytes "app.service"

abbrev pub web : Text
web = bytes "web.target"

abbrev pub unit_spec : Text → List Text → List Text → List Text → List Text → UnitSpec
unit_spec name requires wants after before = record {
  name = name;
  requires = requires;
  wants = wants;
  binds_to = [];
  part_of = [];
  after = after;
  before = before;
}

-- The target wants the application, which requires the database, starts after it and before the
-- target.
abbrev pub db_unit : UnitSpec
db_unit = unit_spec (bytes "DB") [] [] [] []

abbrev pub app_unit : UnitSpec
app_unit = unit_spec app (db ∷ []) [] (bytes "db" ∷ []) (web ∷ [])

abbrev pub web_unit : UnitSpec
web_unit = unit_spec web [] (app ∷ bytes "gone" ∷ []) [] []

abbrev pub node_with :
    UnitSpec → Text → List Text → List Text → List Text → List Text → List Text → Node
node_with u name requires wants after before waits = record {
  name = name;
  unit = u;
  requires = requires;
  wants = wants;
  binds_to = [];
  part_of = [];
  after = after;
  before = before;
  waits_for = waits;
}

abbrev pub stack : Graph
stack =
    node_with db_unit db [] [] [] [] []
    ∷ node_with app_unit app (db ∷ []) [] (db ∷ []) (web ∷ []) (db ∷ [])
    ∷ node_with web_unit web [] (app ∷ bytes "gone.service" ∷ []) [] [] (app ∷ [])
    ∷ []

abbrev pub stack_units : List (Option UnitSpec)
stack_units = some db_unit ∷ some app_unit ∷ some web_unit ∷ []

pub build-stack : build stack_units ≡ ok stack
unfolding build new_node normalize_name unique_stable text_eq is_loaded to_lower trim_space
    has_suffix filter
build-stack = refl
