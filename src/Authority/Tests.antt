-- ===== src/Authority/Tests.antt =====
-- A write capability that all parties know, and an optional one that only the task knows.
use pan_agent.Base.{
  ◌≡◌, refl, String, true, false, Option, none, some, [], ◌∷◌, str_eq, if◌then◌else◌, keep,
}
use pan_agent.Base.Result.{ok, err}
use pan_agent.Base.Text.{codes, text_eq}
use pan_agent.Base.Json.{end}
use pan_agent.Authority.{
  CapabilityGrant, CapabilityRequirement, not_authorized, Parties, resolve_authority, settle_all,
  settle, by_id, has_duplicates, settle_found, settle_tool, make_grant,
}
use pan_agent.Authority.Ceiling.{IsAuthorized, resolve_authority-IsAuthorized}
use pan_agent.Authority.Granting.{resolve_authority-settle_all}
use pan_agent.Authority.Sets.{common, sorted_set, has_text, insert_text, text_ltb}

abbrev write : CapabilityRequirement
write = record {
  capability_id = "write";
  required = true;
  resources = codes "b" ∷ codes "a" ∷ codes "b" ∷ [];
  constraints = end;
}

abbrev extra : CapabilityRequirement
extra = record { capability_id = "net"; required = false; resources = []; constraints = end }

abbrev ceiling : CapabilityGrant
ceiling = record {
  capability_id = "write";
  resources = codes "c" ∷ codes "b" ∷ codes "a" ∷ [];
  constraints = end;
}

-- A tool is its name.
abbrev named : String → Option String
named name = some name

abbrev parties : Parties String
parties = record {
  runtime = ceiling ∷ [];
  caller = ceiling ∷ [];
  pack = write ∷ [];
  available = λ id. if str_eq id "write" then some "write" else none;
}

abbrev granted : CapabilityGrant
granted = record {
  capability_id = "write";
  resources = codes "a" ∷ codes "b" ∷ [];
  constraints = end;
}

task_granted : resolve_authority named parties (write ∷ extra ∷ []) ≡ ok (granted ∷ [])
unfolding resolve_authority settle_all settle settle_found by_id common sorted_set keep has_text
    text_eq insert_text text_ltb settle_tool make_grant has_duplicates
task_granted = refl

required_refused :
    resolve_authority named parties (record extra { required = true } ∷ [])
    ≡ err (not_authorized "net")
unfolding resolve_authority settle_all settle settle_found by_id
required_refused = refl

resolve_authority-IsAuthorized_example :
    IsAuthorized named parties (write ∷ extra ∷ []) (granted ∷ [])
resolve_authority-IsAuthorized_example =
    resolve_authority-IsAuthorized named parties (write ∷ extra ∷ []) task_granted

resolve_authority-settle_all_example :
    resolve_authority named parties (write ∷ extra ∷ [])
    ≡ settle_all named parties (write ∷ extra ∷ [])
unfolding has_duplicates
resolve_authority-settle_all_example =
    resolve_authority-settle_all named parties (write ∷ extra ∷ []) refl
