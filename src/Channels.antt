-- ===== src/Channels.antt =====
-- The channel of a session: its destination (src/channels/config.ts) and, in Refs, the references to
-- what the agent was shown of it.
pub mod Refs
pub mod Abstract
pub mod Capabilities
mod Tests
use pi_recipes.Prelude.{Text, codes, Option, none, some}
use pi_recipes.Prelude.Texts.{given_trimmed}

pub record ChannelConfig : Type 0 where
  pub provider : Text
  pub channel_ref : Text
  pub thread_ref : Option Text

-- The environment gives the value of a variable that is set.
pub resolve_channel_config : (Text → Option Text) → Option ChannelConfig
resolve_channel_config env =
    elim (given_trimmed (env (codes "INTROSPECTION_TASK_CHANNEL_PROVIDER"))) [
      | none ↦ none
      | some provider ↦ elim (given_trimmed (env (codes "INTROSPECTION_TASK_CHANNEL_ID"))) [
        | none ↦ none
        | some channel_ref ↦ some (record {
          provider = provider;
          channel_ref = channel_ref;
          thread_ref = given_trimmed (env (codes "INTROSPECTION_TASK_THREAD_ID"));
        })
      ]
    ]
