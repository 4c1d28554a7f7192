-- ===== src/Grpc/Request.antt =====
-- crates/heyl-grpc/src/request.rs and the client types of lib.rs: what a call carries beside its message.
use heyl.Prelude.{String, Option}

abbrev pub client_type_cli : String
client_type_cli = "400"

abbrev pub client_type_recovery : String
client_type_recovery = "200"

pub record ClientContext : Type 0 where
  pub client_id : String
  pub client_type : String
  pub client_version : String
  pub user_agent : String
  pub access_token : Option String

-- `Request<T>`: the message, and the metadata in front of it.
pub record Request (M : Type 0) : Type 0 where
  pub message : M
  pub client_id : String
  pub client_type : String
  pub client_version : String
  pub user_agent : String
  pub access_token : Option String

unfoldable pub request : {M : Type 0} → ClientContext → M → Request M
request context message = record {
  message = message;
  client_id = context.client_id;
  client_type = context.client_type;
  client_version = context.client_version;
  user_agent = context.user_agent;
  access_token = context.access_token;
}

unfoldable pub as_client_type : ClientContext → String → ClientContext
as_client_type context client_type = record context { client_type = client_type }

unfoldable pub with_token : ClientContext → Option String → ClientContext
with_token context access_token = record context { access_token = access_token }

-- `Request::map`: another message with the same metadata.
unfoldable pub map_request : {M N : Type 0} → Request M → (M → N) → Request N
map_request r f = record {
  message = f r.message;
  client_id = r.client_id;
  client_type = r.client_type;
  client_version = r.client_version;
  user_agent = r.user_agent;
  access_token = r.access_token;
}
