-- ===== src/Channels/Refs.antt =====
-- The store of opaque handles of a session (`ChannelRefStore` of src/channels/refs.ts). `stringify`
-- stands for JSON.stringify on [conversation, thread, id], and each call takes the UUID that
-- randomUUID gives it.
use pi_recipes.Prelude.{
  Text, codes, text_eq, Bool, true, false, not, ◌||◌, List, [], ◌∷◌, ◌++◌, Option, none, some, keep,
  take, if◌then◌else◌, ◌==◌,
}
use pi_recipes.Prelude.Maps.{lookup, insert}
use pi_recipes.Prelude.Results.{Result, returns, throws, ◌>>=◌}

-- Of a message; an author that is not told is not the agent.
pub record ChannelMessageIdentity : Type 0 where
  pub conversation : Text
  pub id : Text
  pub thread : Option Text
  pub authored_by_agent : Bool
  pub permalink : Option Text

pub record ChannelFileIdentity : Type 0 where
  pub file_conversation : Text
  pub file_id : Text
  pub file_thread : Option Text

pub record ChannelRefStore : Type 0 where
  pub messages : List (Text × ChannelMessageIdentity)
  pub by_identity : List (Text × Text)
  pub cursors : List (Text × (Text × Option Text))
  pub files : List (Text × ChannelFileIdentity)
  pub by_file_identity : List (Text × Text)

pub data RefError : Type 0 where
  unknown_message not_authored unknown_cursor unknown_file : Text → RefError
  other_scope : RefError

abbrev pub empty_store : ChannelRefStore
empty_store = record {
  messages = [];
  by_identity = [];
  cursors = [];
  files = [];
  by_file_identity = [];
}

-- `${prefix}${uuid.replaceAll("-", "").slice(0, 16)}`
unfoldable pub handle : Text → Text → Text
handle prefix uuid = prefix ++ take 16 (keep (λ c. not (c == b'-')) uuid)

unfoldable pub message_key : (Text → Option Text → Text → Text) → ChannelMessageIdentity → Text
message_key stringify identity = stringify identity.conversation identity.thread identity.id

abbrev or_option {ℓ} : {A : Type ℓ} → Option A → Option A → Option A
or_option none other = other
or_option (some a) other = some a

-- What is kept of a message that is seen again.
unfoldable pub seen_again : ChannelMessageIdentity → ChannelMessageIdentity → ChannelMessageIdentity
seen_again previous identity = record identity {
  authored_by_agent = previous.authored_by_agent || identity.authored_by_agent;
  permalink = or_option identity.permalink previous.permalink;
}

-- A message that has a reference already.
unfoldable pub update_message :
    Text
    → ChannelMessageIdentity
    → Option ChannelMessageIdentity
    → ChannelRefStore
    → ChannelRefStore
update_message ref identity none store = store
update_message ref identity (some previous) store = record store {
  messages = insert ref (seen_again previous identity) store.messages;
}

unfoldable pub record_known :
    Text → ChannelMessageIdentity → Text → Option Text → ChannelRefStore → Text × ChannelRefStore
record_known key identity uuid none store =
    let ref = handle (codes "msg_") uuid in
    (
      ref,
      record store {
        messages = insert ref identity store.messages;
        by_identity = insert key ref store.by_identity;
      },
    )
record_known key identity uuid (some existing) store =
    (existing, update_message existing identity (lookup existing store.messages) store)

-- The method `message`.
unfoldable pub record_message :
    (Text → Option Text → Text → Text)
    → ChannelMessageIdentity
    → Text
    → ChannelRefStore
    → Text × ChannelRefStore
record_message stringify identity uuid store =
    let key = message_key stringify identity in
    record_known key identity uuid (lookup key store.by_identity) store

abbrev pub found_message :
    Text → Option ChannelMessageIdentity → Result RefError ChannelMessageIdentity
found_message ref none = throws (unknown_message ref)
found_message ref (some identity) = returns identity

unfoldable pub resolve_message : Text → ChannelRefStore → Result RefError ChannelMessageIdentity
resolve_message ref store = found_message ref (lookup ref store.messages)

abbrev pub check_authored : Text → ChannelMessageIdentity → Result RefError ChannelMessageIdentity
check_authored ref identity =
    if not identity.authored_by_agent then throws (not_authored ref) else returns identity

unfoldable pub resolve_authored : Text → ChannelRefStore → Result RefError ChannelMessageIdentity
resolve_authored ref store = do identity ← resolve_message ref store; check_authored ref identity

-- The method `cursor`.
unfoldable pub record_cursor : Text → Option Text → Text → ChannelRefStore → Text × ChannelRefStore
record_cursor provider_cursor scope uuid store =
    let cursor = handle (codes "cur_") uuid in
    (cursor, record store { cursors = insert cursor (provider_cursor, scope) store.cursors })

abbrev pub same_scope : Option Text → Option Text → Bool
same_scope none none = true
same_scope (some a) (some b) = text_eq a b
same_scope _ _ = false

unfoldable pub resolve_cursor : Text → Option Text → ChannelRefStore → Result RefError Text
resolve_cursor cursor scope store = elim (lookup cursor store.cursors) [
  | none ↦ throws (unknown_cursor cursor)
  | some (value, owner) ↦ if not (same_scope owner scope) then throws other_scope else returns value
]

unfoldable pub record_known_file :
    Text → ChannelFileIdentity → Text → Option Text → ChannelRefStore → Text × ChannelRefStore
record_known_file key identity uuid none store =
    let ref = handle (codes "file_") uuid in
    (
      ref,
      record store {
        files = insert ref identity store.files;
        by_file_identity = insert key ref store.by_file_identity;
      },
    )
record_known_file key identity uuid (some existing) store = (existing, store)

-- The method `file`.
unfoldable pub record_file :
    (Text → Option Text → Text → Text)
    → ChannelFileIdentity
    → Text
    → ChannelRefStore
    → Text × ChannelRefStore
record_file stringify identity uuid store =
    let key = stringify identity.file_conversation identity.file_thread identity.file_id in
    record_known_file key identity uuid (lookup key store.by_file_identity) store

unfoldable pub resolve_file : Text → ChannelRefStore → Result RefError ChannelFileIdentity
resolve_file ref store = elim (lookup ref store.files) [
  | none ↦ throws (unknown_file ref)
  | some identity ↦ returns identity
]

-- A call that a session makes to the store.
pub data RefCall : Type 0 where
  message_call : ChannelMessageIdentity → Text → RefCall
  cursor_call : Text → Option Text → Text → RefCall
  file_call : ChannelFileIdentity → Text → RefCall

unfoldable pub run_call :
    (Text → Option Text → Text → Text) → RefCall → ChannelRefStore → ChannelRefStore
run_call stringify (message_call identity uuid) store =
    (record_message stringify identity uuid store).1
run_call stringify (cursor_call value scope uuid) store = (record_cursor value scope uuid store).1
run_call stringify (file_call identity uuid) store = (record_file stringify identity uuid store).1

unfoldable pub run_calls :
    (Text → Option Text → Text → Text) → List RefCall → ChannelRefStore → ChannelRefStore
run_calls stringify [] store = store
run_calls stringify (call ∷ rest) store = run_calls stringify rest (run_call stringify call store)
