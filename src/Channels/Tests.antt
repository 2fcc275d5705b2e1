-- ===== src/Channels/Tests.antt =====
-- A session that reads a message, posts one, and reads its own again.
use pi_recipes.Prelude.{
  Text, codes, text_eq, true, false, List, [], ◌∷◌, ◌++◌, Option, none, some, any, ◌≡◌, refl,
}
use pi_recipes.Prelude.Maps.{lookup, insert}
use pi_recipes.Prelude.Results.{returns}
use pi_recipes.Channels.Refs.{
  ChannelMessageIdentity, empty_store, message_call, RefCall, run_calls, run_call, record_message,
  resolve_authored, handle, record_known, update_message, message_key, resolve_message, seen_again,
}
use pi_recipes.Channels.Abstract.{contents, see_calls}
use pi_recipes.Channels.Capabilities.{
  AllFresh, authors, run_calls-contents, resolve_authored-authors,
}

abbrev joined : Text → Option Text → Text → Text
joined conversation none id = conversation ++ codes "/" ++ id
joined conversation (some thread) id = conversation ++ codes "/" ++ thread ++ codes "/" ++ id

abbrev read_message : ChannelMessageIdentity
read_message = record {
  conversation = codes "c";
  id = codes "1";
  thread = none;
  authored_by_agent = false;
  permalink = none;
}

abbrev own_message : ChannelMessageIdentity
own_message = record read_message { id = codes "2"; authored_by_agent = true }

abbrev calls : List RefCall
calls =
    message_call read_message (codes "aaaa-1")
    ∷ message_call own_message (codes "bbbb-2")
    ∷ message_call (record own_message { authored_by_agent = false }) (codes "cccc-3")
    ∷ []

calls-AllFresh : AllFresh joined calls empty_store
unfolding lookup insert handle run_call record_message record_known message_key text_eq
    update_message
calls-AllFresh = (refl, (refl, (refl, tt)))

run_calls-contents_example :
    contents (run_calls joined calls empty_store) (codes "c/2")
    ≡ see_calls joined calls (λ k. none) (codes "c/2")
run_calls-contents_example = run_calls-contents joined calls (codes "c/2") calls-AllFresh

own_resolves :
    resolve_authored (codes "msg_bbbb2") (run_calls joined calls empty_store) ≡ returns own_message
unfolding lookup insert handle run_calls run_call record_message record_known message_key text_eq
    update_message resolve_authored resolve_message seen_again
own_resolves = refl

resolve_authored-authors_example :
    (key : Text) × (lookup key (run_calls joined calls empty_store).by_identity
      ≡ some (codes "msg_bbbb2"))
    × (any (authors joined key) calls ≡ true)
resolve_authored-authors_example =
    resolve_authored-authors joined calls (codes "msg_bbbb2") own_message calls-AllFresh
      own_resolves
