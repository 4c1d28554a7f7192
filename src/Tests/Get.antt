-- ===== src/Tests/Get.antt =====
-- One run of `get` on an account with one vault and two logins.
use heyl.Prelude.{
  ◌≡◌, refl, ◌≤◌, String, false, true, Bool, none, some, List, [], ◌∷◌, In, All, filter_map,
  if◌then◌else◌, ◌==◌,
}
use heyl.Prelude.Results.{Result, ok, err}
use heyl.Json.Sample.{Tree, Fields, obj, text, flag, field, end, sample}
use heyl.Domain.Kinds.{private_vault, holds_logins, meta}
use heyl.Domain.Sync.{SyncSnapshot, VaultSummary}
use heyl.Vault.Document.{snappy}
use heyl.Vault.Login.{or_blank, Login, live, liveness, logins, parse_login, matches_name}
use heyl.App.Error.{AppError, missing_login_selector}
use heyl.App.Get.Query.{Query, any_vault, login_name, all_fields, from_flags}
use heyl.App.Get.Fields.{Opener, LoginView, field_by_name, view, join}
use heyl.App.Get.Fields.Reading.{AreOpened, view-field_by_name}
use heyl.App.Get.Search.{Candidate, Opened, resolve_scope, rank, login_matches, bucket_rank}
use heyl.App.Get.Search.Ranking.{IsPreferred, rank-IsPreferred}
use heyl.App.Get.Run.{Located, whole_login, run, select}
use heyl.App.Get.Run.Outcome.{IsFound, run_origin}
use heyl.Tests.Samples.{tags, noon, ash, birch, cedar, ash_text, birch_text, noon_text, later_text}

no_login : from_flags tags none none none none none none ≡ err missing_login_selector
unfolding from_flags
no_login = refl

abbrev by_title : Query tags
by_title = record { vault = any_vault; login = login_name "bank"; field = all_fields }

title_flags : from_flags tags none none (some "bank") none none none ≡ ok by_title
unfolding from_flags
title_flags = refl

-- No value is sealed in these tests.
abbrev opener : Opener
opener = record {
  Key = Unit {0};
  base64_decode = λ s. none;
  decrypt = λ k b. ok b;
  from_utf8_lossy = λ b. "";
}

abbrev login_of : String → String → Bool → Tree
login_of name time gone = obj (
    field "displayHeadline" (text name)
      (field "changeTime" (text time) (field "isDeleted" (flag gone) end)))

abbrev vault_content : Fields
vault_content =
    field "logins"
      (obj (
        field ash_text (login_of "bank" later_text true)
          (field birch_text (login_of "Bank" noon_text false) end)))
      end

abbrev opened : Opened sample opener
opened = record {
  document = record {
    format = snappy;
    document_type = "login";
    version = 2;
    content = vault_content;
  };
  protected = tt;
}

abbrev summary : VaultSummary tags
summary = record {
  id = record { uuid = cedar };
  vault_type = private_vault;
  generation_id = "1";
  commit_id = none;
  profile_ids = [];
  associated_vault_id = none;
  organization_id = none;
}

abbrev account : SyncSnapshot tags noon
account = record {
  server_time = none;
  token_refresh_needed = false;
  client_outdated = false;
  session_unlock = none;
  sessions = [];
  vaults = record summary { vault_type = meta } ∷ summary ∷ [];
  profiles = [];
  organizations = [];
}

abbrev open_sample : VaultSummary tags → Result (AppError tags) (Opened sample opener)
open_sample v = ok opened

-- Lower case of the two names.
abbrev lower : String → String
lower s = if s == "Bank" then "bank" else s

abbrev live_bank : Login tags
live_bank = record {
  id = record { uuid = birch };
  display_headline = some "Bank";
  title = "";
  username = "";
  note = "";
  websites = [];
  tags = [];
  password = none;
  custom_fields = [];
  created = none;
  edited = none;
  change_time = some noon_text;
  is_deleted = false;
  is_archived = false;
}

abbrev dead_bank : Login tags
dead_bank = record live_bank {
  id = record { uuid = ash };
  display_headline = some "bank";
  change_time = some later_text;
  is_deleted = true;
}

abbrev live_candidate : Candidate tags opener
live_candidate = record { tier = 0; login = live_bank; protected = tt }

abbrev dead_candidate : Candidate tags opener
dead_candidate = record { tier = 0; login = dead_bank; protected = tt }

rank-IsPreferred_example :
    (c : Candidate tags opener) × (rank (dead_candidate ∷ live_candidate ∷ []) ≡ some c)
    × In c (dead_candidate ∷ live_candidate ∷ [])
    × All (IsPreferred c) (dead_candidate ∷ live_candidate ∷ [])
rank-IsPreferred_example = rank-IsPreferred dead_candidate (live_candidate ∷ [])

abbrev live_view : LoginView
live_view = record {
  id = birch_text;
  name = some "Bank";
  title = none;
  username = none;
  password = none;
  websites = [];
  note = none;
  labels = [];
  custom = [];
  created = none;
  edited = none;
  change_time = some noon_text;
  is_deleted = false;
  is_archived = false;
}

viewed : view tags opener live_bank tt ≡ ok live_view
unfolding view
viewed = refl

view-field_by_name_example :
    (field_by_name tags opener live_bank "id" tt ≡ ok birch_text)
    × (field_by_name tags opener live_bank "name" tt ≡ ok "Bank")
    × (field_by_name tags opener live_bank "title" tt ≡ ok "")
    × (field_by_name tags opener live_bank "username" tt ≡ ok "")
    × (field_by_name tags opener live_bank "note" tt ≡ ok "")
    × (field_by_name tags opener live_bank "password" tt ≡ ok "")
    × (field_by_name tags opener live_bank "website" tt ≡ ok (join []))
    × (field_by_name tags opener live_bank "labels" tt ≡ ok (join []))
    × (field_by_name tags opener live_bank "created" tt ≡ ok (or_blank live_view.created))
    × (field_by_name tags opener live_bank "edited" tt ≡ ok (or_blank live_view.edited))
    × AreOpened tags opener tt live_bank.custom_fields live_view.custom
view-field_by_name_example = view-field_by_name tags opener live_bank tt live_view viewed

scope_resolved :
    resolve_scope sample tags noon opener lower open_sample account any_vault ≡ ok (summary ∷ [])
unfolding resolve_scope holds_logins
scope_resolved = refl

abbrev located : Located
located = record { match_count = 2; liveness = live; selection = whole_login live_view }

found_bank : run sample tags noon opener lower open_sample account by_title ≡ ok located
unfolding run holds_logins logins filter_map parse_login login_matches matches_name bucket_rank
    liveness view
found_bank = refl

run_origin_example :
    (scope : List (VaultSummary tags)) × (login : Login tags) × (key : Unit {0}) × (resolve_scope
        sample tags noon opener lower open_sample account any_vault
      ≡ ok scope)
    × IsFound sample tags noon opener lower open_sample (login_name "bank") scope login
    × (select sample tags noon opener lower open_sample login all_fields key
        ≡ ok (whole_login live_view))
    × (live ≡ liveness login)
    × (1 ≤ 2)
run_origin_example =
    run_origin sample tags noon opener lower open_sample account by_title located found_bank
