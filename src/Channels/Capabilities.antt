-- ===== src/Channels/Capabilities.antt =====
-- What a session may do with its references (src/channels/refs.ts).
use pi_recipes.Prelude.{
  Text, codes, text_eq, text_eq_iff, Bool, true, false, not, ◌||◌, List, [], ◌∷◌, Option, none,
  some, Bool-cases, any, ◌≡◌, refl, sym, ap, ◌∙◌, subst, arith, inl, inr, if◌then◌else◌,
}
use pi_recipes.Prelude.Maps.{lookup}
use pi_recipes.Prelude.Results.{Result, returns, throws, ◌>>=◌}
use pi_recipes.Channels.Refs.{
  ChannelMessageIdentity, ChannelRefStore, RefError, empty_store, handle, message_key, seen_again,
  update_message, record_known, record_message, RefCall, message_call, cursor_call, file_call,
  run_call, run_calls, record_cursor, record_file, record_known_file, ChannelFileIdentity,
  resolve_message, resolve_authored, check_authored, found_message, unknown_message, not_authored,
}
use pi_recipes.Channels.Abstract.{
  Seen, see, see_option, see_call, see_calls, contents, referred, IsPaired, contents-known,
  update-IsPaired, contents-new, added-IsPaired,
}

-- The handle of a message is no other message's.
abbrev pub IsFresh : RefCall → ChannelRefStore → Type 0
IsFresh (message_call identity uuid) store =
    lookup (handle (codes "msg_") uuid) store.messages ≡ none
IsFresh (cursor_call value scope uuid) store = Unit
IsFresh (file_call identity uuid) store = Unit

-- A step of the store, as a step of what the session has seen.
record Simulates (seen : Seen) (store : ChannelRefStore) : Type 0 where
  paired : IsPaired store
  same : (k : Text) → contents store k ≡ seen k

module _ (stringify : Text → Option Text → Text → Text) where
  abbrev pub AllFresh : List RefCall → ChannelRefStore → Type 0
  AllFresh [] store = Unit
  AllFresh (call ∷ rest) store = IsFresh call store × AllFresh rest (run_call stringify call store)

  module _ (store : ChannelRefStore) (paired : IsPaired store) where
    record_known-Simulates :
        (key : Text) (identity : ChannelMessageIdentity) (uuid : Text) (known : Option Text)
        → lookup key store.by_identity ≡ known
        → lookup (handle (codes "msg_") uuid) store.messages ≡ none
        → Simulates
            (see key identity (contents store))
            (record_known key identity uuid known store).1
    unfolding record_known
    record_known-Simulates key identity uuid none e fresh = record {
      paired = added-IsPaired store paired key identity (handle (codes "msg_") uuid) e fresh;
      same = contents-new store paired key identity (handle (codes "msg_") uuid) e fresh;
    }
    record_known-Simulates key identity uuid (some ref) e fresh =
        let (previous, found) = paired.present key ref e in
        subst
          (λ o. Simulates (see key identity (contents store)) (update_message ref identity o store))
          (sym found)
          (record {
            paired = update-IsPaired store paired key identity ref previous e found;
            same = contents-known store paired key identity ref previous e found;
          })

    file-Simulates :
        (key : Text) (identity : ChannelFileIdentity) (uuid : Text) (known : Option Text)
        → Simulates (contents store) (record_known_file key identity uuid known store).1
    unfolding record_known_file contents
    file-Simulates key identity uuid none = record {
      paired = record {
        present = paired.present;
        distinct = paired.distinct;
        named = paired.named;
      };
      same = λ k. refl;
    }
    file-Simulates key identity uuid (some ref) = record { paired = paired; same = λ k. refl }

    run_call-Simulates :
        (call : RefCall)
        → IsFresh call store
        → Simulates (see_call stringify call (contents store)) (run_call stringify call store)
    unfolding run_call see_call record_message record_file record_cursor contents
    run_call-Simulates (message_call identity uuid) fresh =
        record_known-Simulates (message_key stringify identity) identity uuid _ refl fresh
    run_call-Simulates (cursor_call value scope uuid) fresh = record {
      paired = record {
        present = paired.present;
        distinct = paired.distinct;
        named = paired.named;
      };
      same = λ k. refl;
    }
    run_call-Simulates (file_call identity uuid) fresh = file-Simulates _ identity uuid _

  see-ext :
      (key : Text) (identity : ChannelMessageIdentity) (seen seen' : Seen)
      → ((k : Text) → seen k ≡ seen' k)
      → (k : Text) → see key identity seen k ≡ see key identity seen' k
  unfolding see
  see-ext key identity seen seen' same k = rw (same key, same k) refl

  see_call-ext :
      (call : RefCall) (seen seen' : Seen)
      → ((k : Text) → seen k ≡ seen' k)
      → (k : Text) → see_call stringify call seen k ≡ see_call stringify call seen' k
  unfolding see_call
  see_call-ext (message_call identity uuid) seen seen' same k =
      see-ext (message_key stringify identity) identity seen seen' same k
  see_call-ext (cursor_call value scope uuid) seen seen' same k = same k
  see_call-ext (file_call identity uuid) seen seen' same k = same k

  run_calls-Simulates :
      (calls : List RefCall) (seen : Seen) (store : ChannelRefStore)
      → Simulates seen store
      → AllFresh calls store
      → Simulates (see_calls stringify calls seen) (run_calls stringify calls store)
  unfolding run_calls see_calls
  run_calls-Simulates [] seen store s fresh = s
  run_calls-Simulates (call ∷ rest) seen store s (now, later) =
      let next = run_call-Simulates store s.paired call now in
      run_calls-Simulates rest (see_call stringify call seen) (run_call stringify call store)
        (record {
          paired = next.paired;
          same = λ k. next.same k ∙ see_call-ext call (contents store) seen s.same k;
        })
        later

  abbrev nothing_seen : Seen
  nothing_seen k = none

  empty-Simulates : Simulates nothing_seen empty_store
  unfolding contents lookup
  empty-Simulates = record {
    paired = record { present = λ k r e. cc; distinct = λ k j r e f. cc; named = λ r i e. cc };
    same = λ k. refl;
  }

  -- The store refines the session's memory of its messages, which knows no references: after any
  -- calls, with handles that are new, what a message's key refers to is what the messages with that
  -- key come to, one after the other.
  pub run_calls-contents :
      (calls : List RefCall) (key : Text)
      → AllFresh calls empty_store
      → contents (run_calls stringify calls empty_store) key
        ≡ see_calls stringify calls (λ k. none) key
  run_calls-contents calls key fresh =
      (run_calls-Simulates calls nothing_seen empty_store empty-Simulates fresh).same key

  -- A call that shows a message of that key as the agent's own.
  abbrev pub authors : Text → RefCall → Bool
  authors key (message_call identity uuid) =
      if text_eq (message_key stringify identity) key then identity.authored_by_agent else false
  authors key (cursor_call value scope uuid) = false
  authors key (file_call identity uuid) = false

  abbrev authored_of : Option ChannelMessageIdentity → Bool
  authored_of none = false
  authored_of (some identity) = identity.authored_by_agent

  authored_of-see_option :
      (previous : Option ChannelMessageIdentity) (identity : ChannelMessageIdentity)
      → (see_option previous identity).authored_by_agent
        ≡ (authored_of previous || identity.authored_by_agent)
  unfolding seen_again
  authored_of-see_option none identity = refl
  authored_of-see_option (some previous) identity = refl

  authored_of-see_call :
      (key : Text) (call : RefCall) (seen : Seen)
      → authored_of (see_call stringify call seen key)
        ≡ (authored_of (seen key) || authors key call)
  unfolding see_call see seen_again
  authored_of-see_call key (message_call identity uuid) seen =
      let mine = message_key stringify identity in
      elim (Bool-cases (text_eq mine key)) [
        | inl same ↦ rw same (
            authored_of-see_option (seen mine) identity
            ∙ ap (λ k. authored_of (seen k) || identity.authored_by_agent)
                ((text_eq_iff mine key).0 same))
        | inr other ↦ rw other (ground arith)
      ]
  authored_of-see_call key (cursor_call value scope uuid) seen = ground arith
  authored_of-see_call key (file_call identity uuid) seen = ground arith

  authored_of-see_calls :
      (key : Text) (calls : List RefCall) (seen : Seen)
      → authored_of (see_calls stringify calls seen key)
        ≡ (authored_of (seen key) || any (authors key) calls)
  unfolding see_calls
  authored_of-see_calls key [] seen = ground arith
  authored_of-see_calls key (call ∷ rest) seen =
      let step = authored_of-see_call key call seen in
      ground (arith, authored_of-see_calls key rest (see_call stringify call seen), step)

  abbrev resolved_of : Text → Option ChannelMessageIdentity → Result RefError ChannelMessageIdentity
  resolved_of ref none = throws (unknown_message ref)
  resolved_of ref (some identity) = check_authored ref identity

  resolve_authored-eq :
      (ref : Text) (store : ChannelRefStore) (found : Option ChannelMessageIdentity)
      → lookup ref store.messages ≡ found
      → resolve_authored ref store ≡ resolved_of ref found
  unfolding resolve_authored resolve_message
  resolve_authored-eq ref store none h = ap (λ o. found_message ref o >>= check_authored ref) h
  resolve_authored-eq ref store (some identity) h =
      ap (λ o. found_message ref o >>= check_authored ref) h

  resolved_of-returns :
      (ref : Text) (found : Option ChannelMessageIdentity) (identity : ChannelMessageIdentity)
      → resolved_of ref found ≡ returns identity
      → (message : ChannelMessageIdentity) × (found ≡ some message)
        × (message.authored_by_agent ≡ true)
  resolved_of-returns ref none identity e = cc
  resolved_of-returns ref (some message) identity e = elim (Bool-cases message.authored_by_agent) [
    | inl own ↦ (message, refl, own)
    | inr other ↦
        let refused : throws (not_authored ref) ≡ returns identity =
          sym (ap (λ b. if not b then throws (not_authored ref) else returns message) other) ∙ e in
        cc
  ]

  -- Only the agent's own messages can be edited or retracted: if a reference resolves for that, it is
  -- the reference of a message that some call of the session showed as the agent's own, whatever text
  -- is given as the reference.
  pub resolve_authored-authors :
      (calls : List RefCall) (ref : Text) (identity : ChannelMessageIdentity)
      → AllFresh calls empty_store
      → resolve_authored ref (run_calls stringify calls empty_store) ≡ returns identity
      → (key : Text) × (lookup key (run_calls stringify calls empty_store).by_identity ≡ some ref)
        × (any (authors key) calls ≡ true)
  unfolding contents
  resolve_authored-authors calls ref identity fresh e =
      let store = run_calls stringify calls empty_store in
      let simulates = run_calls-Simulates calls nothing_seen empty_store empty-Simulates fresh in
      let (message, found, own) =
        resolved_of-returns ref (lookup ref store.messages) identity
          (sym (resolve_authored-eq ref store _ refl) ∙ e) in
      let (key, paired) = simulates.paired.named ref message found in
      let seen : see_calls stringify calls nothing_seen key ≡ some message =
        sym (simulates.same key) ∙ ap (λ r. referred r store.messages) paired ∙ found in
      (key, paired, sym (authored_of-see_calls key calls nothing_seen) ∙ ap authored_of seen ∙ own)
