-- ===== src/Tests/Host.antt =====
-- A host for the tests: a keychain in memory, a backend that keeps the token it was given, and a crypto
-- in which nothing is hidden.
use heyl.Prelude.{
  ℕ, ◌≡◌, refl, sym, ap, String, Bool, true, false, Option, none, some, List, [], ◌∷◌, ◌==◌, ◌&&◌,
  if◌then◌else◌, eqb, eq_iff, Bool-cases, inl, inr, map,
}
use heyl.Prelude.Results.{ok, err, ok_or}
use heyl.Json.Sample.{Tree, nil, cons, list, text, sample, items_list-list_items}
use heyl.Base64.{Base64}
use heyl.Domain.Session.{JsonText}
use heyl.Domain.Sync.{SyncSnapshot}
use heyl.Domain.Keys.{RecoveryParams}
use heyl.Domain.Kinds.{backup_code, push}
use heyl.Domain.Authenticator.{Authenticator, AuthenticatorPublicKeys, recovery, opaque_secret}
use heyl.Domain.Login.{Challenge}
use heyl.App.Error.{not_found, transport}
use heyl.App.Slots.{
  StoredSecret, access_token, session_private_key, slot_index, session_id, SecretKey, SecretStore,
  IsKeychain, DeletesItems,
}
use heyl.App.Ports.{Ports, HeylApi, Terminal}
use heyl.App.Session.Index.{ReadsTexts}
use heyl.Tests.Samples.{ash, birch, tags, noon, codec}
use heyl.Tests.Keys.{clear, account}

unfoldable pub number : StoredSecret → ℕ
number access_token = 0
number session_private_key = 1
number slot_index = 2
number session_id = 3

number_inj : (a b : StoredSecret) → eqb (number a) (number b) ≡ true → a ≡ b
unfolding number
number_inj access_token access_token e = refl
number_inj session_private_key session_private_key e = refl
number_inj slot_index slot_index e = refl
number_inj session_id session_id e = refl
number_inj a b e = cc

unfoldable pub same_account : Option String → Option String → Bool
same_account none none = true
same_account (some a) (some b) = a == b
same_account a b = false

unfoldable pub same : SecretKey → SecretKey → Bool
same j k = same_account j.account k.account && eqb (number j.secret) (number k.secret)

same_account_refl : (a : Option String) → same_account a a ≡ true
unfolding same_account
same_account_refl none = refl
same_account_refl (some a) = (eq_iff a a).1 refl

same_account_sound : (a b : Option String) → same_account a b ≡ true → a ≡ b
unfolding same_account
same_account_sound none none e = refl
same_account_sound (some a) (some b) e = ap some ((eq_iff a b).0 e)
same_account_sound none (some b) e = cc
same_account_sound (some a) none e = cc

number_refl : (s : StoredSecret) → eqb (number s) (number s) ≡ true
unfolding number
number_refl access_token = refl
number_refl session_private_key = refl
number_refl slot_index = refl
number_refl session_id = refl

same_refl : (k : SecretKey) → same k k ≡ true
unfolding same
same_refl k = rw (same_account_refl k.account, number_refl k.secret)

and_true : (a b : Bool) → a && b ≡ true → (a ≡ true) × (b ≡ true)
and_true true b e = (refl, e)
and_true false b e = cc

same_sound : (j k : SecretKey) → same j k ≡ true → j ≡ k
unfolding same
same_sound j k e =
    let both =
      and_true (same_account j.account k.account) (eqb (number j.secret) (number k.secret)) e in
    let account = same_account_sound j.account k.account both.0 in
    let secret = number_inj j.secret k.secret both.1 in cc

abbrev pub memory : SecretStore
memory = record {
  State = SecretKey → Option String;
  get = λ s k. ok_or (not_found "keychain") (s k);
  set = λ s k v. ((λ j. if same j k then some v else s j), ok tt);
  delete = λ s k. ((λ j. if same j k then none else s j), ok tt);
}

pub memory-IsKeychain : IsKeychain memory
memory-IsKeychain = record {
  get-set = λ s k v done. rw (same_refl k);
  get-set_other = λ s k j v other. elim (Bool-cases (same j k)) [
    | inl e ↦ let same_key = same_sound j k e in absurd (other same_key)
    | inr e ↦ rw e
  ];
}

pub memory-DeletesItems : DeletesItems memory
memory-DeletesItems = record {
  get-delete = λ s k v done. rw (same_refl k) (λ e. cc);
  get-delete_other = λ s k j other. elim (Bool-cases (same j k)) [
    | inl e ↦ let same_key = same_sound j k e in absurd (other same_key)
    | inr e ↦ rw e
  ];
}

-- Two arrays have a text form: no names, and the name `work`.
abbrev tree_to_string : Tree → Option String
tree_to_string (list nil) = some "[]"
tree_to_string (list (cons (text name) nil)) = if name == "work" then some "[work]" else none
tree_to_string _ = none

abbrev tree_from_str : String → Option Tree
tree_from_str s =
    if s == "[]"
    then some (list nil)
    else if s == "[work]"
    then some (list (cons (text "work") nil))
    else none

abbrev pub tree_text_form : JsonText sample
tree_text_form = record { from_str = tree_from_str; to_string = tree_to_string }

abbrev zeros : List ℕ
zeros =
    0 ∷ 0 ∷ 0 ∷ 0 ∷ 0 ∷ 0 ∷ 0 ∷ 0 ∷ 0 ∷ 0 ∷ 0 ∷ 0 ∷ 0 ∷ 0 ∷ 0 ∷ 0 ∷ 0 ∷ 0 ∷ 0 ∷ 0 ∷ 0 ∷ 0 ∷ 0 ∷ 0
    ∷ 0 ∷ 0 ∷ 0 ∷ 0 ∷ 0 ∷ 0 ∷ 0 ∷ 0 ∷ []

abbrev pub armor : Base64
armor = record {
  standard_encode = λ bytes. "AAAA";
  standard_decode = λ s. some zeros;
  standard_no_pad_decode = λ s. some zeros;
  url_safe_decode = λ s. some zeros;
  url_safe_no_pad_decode = λ s. some zeros;
  url_safe_no_pad_encode = λ bytes. "AAAA";
}

-- The backend wants the token renewed while it is the first one.
abbrev pub due_account : SyncSnapshot tags noon
due_account = record {
  server_time = none;
  token_refresh_needed = true;
  client_outdated = false;
  session_unlock = none;
  sessions = [];
  vaults = account.vaults;
  profiles = account.profiles;
  organizations = [];
}

abbrev no_keys : AuthenticatorPublicKeys
no_keys = record {
  login_sig = none;
  high_security_identity_sig = none;
  storable_sig = none;
  high_security_profile_seed_enc = none;
  storable_profile_seed_enc = none;
  high_security_profile_seed_enc_signature = none;
  storable_profile_seed_enc_signature = none;
  storable_sig_signature = none;
}

abbrev pub costs : RecoveryParams
costs = record { iterations = 3; memory_cost_kib = 65536; parallelism = 1 }

-- A recovery code and a phone.
abbrev pub code_authenticator : Authenticator tags
code_authenticator = record {
  id = record { uuid = ash };
  authenticator_type = backup_code;
  secret = recovery (record { checksum = 1 ∷ []; salt = []; params = costs });
  secret_salt = none;
  public_keys = no_keys;
}

abbrev pub phone_authenticator : Authenticator tags
phone_authenticator = record {
  id = record { uuid = birch };
  authenticator_type = push;
  secret = opaque_secret;
  secret_salt = some [];
  public_keys = no_keys;
}

abbrev pub challenged : Challenge tags
challenged = record {
  user_id = "user";
  challenge = "AAAA";
  authenticators = code_authenticator ∷ phone_authenticator ∷ [];
}

abbrev server : HeylApi tags noon (Option String)
server = record {
  set_access_token = λ token w. token;
  create_challenge = λ email w. (w, ok challenged);
  create_tokens = λ id challenge response kind grant w. (
    w,
    ok (record {
      access_token = "fresh";
      expires_at = none;
      session_id = record { uuid = ash };
      sync = account;
    }),
  );
  refresh_token = λ w. (w, ok "new");
  sync = λ w. (w, ok due_account);
  list_authenticators = λ w. (w, ok (phone_authenticator ∷ []));
  create_long_poll_channel_challenge = λ hash w. (
    w,
    ok (record {
      user_id = "user";
      challenge = "AAAA";
      authenticator_id = record { uuid = birch };
      encrypted_secret = 1 ∷ [];
      registration = false;
    }),
  );
  update_session = λ id update w. (w, ok tt);
  request_session_unlock = λ source w. (w, ok tt);
  delete_session_unlock = λ id w. (w, ok tt);
  delete_session = λ id w. (w, ok tt);
  create_commit = λ vault commit blob at w. (w, ok commit);
  list_commits = λ vault w. (w, err (transport "offline"));
}

abbrev silent : Terminal (Option String)
silent = record {
  is_interactive = λ w. false;
  prompt_line = λ prompt w. (w, ok "");
  prompt_hidden = λ prompt w. (w, ok "");
  read_line = λ w. (w, ok "");
  note = λ message w. w;
  render_qr = λ url style w. (w, true);
}

abbrev pub host : Ports tags noon clear sample
host = record {
  codec = codec;
  text = tree_text_form;
  base64 = armor;
  as_bytes = λ s. [];
  debug = λ s. s;
  settings_from_seq = λ v. none;
  metadata_from_seq = λ v. none;
  store = memory;
  Outside = Option String;
  api = server;
  terminal = silent;
  clock = record { now = λ w. 0; next_unlock_deadline = λ w. 5250; sleep_millis = λ n w. w };
  random = record { fill = λ n w. (w, zeros) };
}

some_inj : {a b : String} → some a ≡ some b → a ≡ b
some_inj e = cc

reads_back :
    (names : List String) (json : String)
    → tree_to_string (sample.array (map text names)) ≡ some json
    → tree_from_str json ≡ some (sample.array (map text names))
reads_back [] json h = rw (sym (some_inj h)) refl
reads_back (n ∷ []) json h = elim (Bool-cases (n == "work")) [
  | inl e ↦
      let written : some "[work]" ≡ some json = rw e at h in
      rw (sym (some_inj written), (eq_iff n "work").0 e) refl
  | inr e ↦ let written : none ≡ some json = rw e at h in cc
]
reads_back (n ∷ m ∷ ns) json h = cc

items-list : (vs : List Tree) → sample.as_array (sample.array vs) ≡ some vs
items-list vs = rw (items_list-list_items vs) refl

pub host-ReadsTexts : ReadsTexts sample tree_text_form
host-ReadsTexts = record { from_str-to_string = reads_back; as_array-array = items-list }
