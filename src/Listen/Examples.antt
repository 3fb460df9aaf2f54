-- ===== src/Listen/Examples.antt =====
-- orchestration/listen.py: a channel with one operator, for the tests.
use discord_os.Prelude.{true, false, none, [], ◌∷◌}
use discord_os.Text.{txt}
use discord_os.Operators.{Environment, owner}
use discord_os.Listen.Desk.{DiscordMessage, Place, Scene, Desk}

abbrev pub no_env : Environment
no_env = record {
  require_operators_flag = [];
  require_allowlist_flag = [];
  interactions_flag = [];
  owner_id = [];
  operator_role_ids = [];
}

abbrev pub office : Place
office = record { channel_id = txt "5"; workspace_id = txt "default"; guild_id = txt "1" }

-- A message that is a plain ask.
abbrev pub plain : Scene
plain = record {
  now = 50;
  intake_text = [];
  metadata = txt "{}";
  needs_transcribe = false;
  skip_voice = false;
  is_jishaku = false;
  scheduled = none;
  is_dispatchable = true;
  is_halted = false;
  follow_thread = [];
  is_spoken = false;
  fork_prompt = none;
  fork_node = false;
  captures = false;
  capture_text = [];
  has_running_job = false;
  queues = true;
  steers = false;
  running_run = [];
  fresh_id = txt "q1";
  claimed_code = none;
  handoff = none;
  is_handed_off = false;
  has_pool = true;
}

abbrev pub ann_asks : DiscordMessage
ann_asks = record {
  message_id = txt "1174000000000000001";
  author_id = txt "ann";
  role_ids = [];
  content = txt "fix the tests";
  is_preclaimed = false;
}

abbrev pub bob_asks : DiscordMessage
bob_asks = record ann_asks { message_id = txt "1174000000000000002"; author_id = txt "bob" }

-- Ann is the owner, and the channel is on.
abbrev pub with_ann : Desk
with_ann = record {
  is_armed = true;
  messages = record { seen = []; pending = [] };
  operators = record {
    people = record { user_id = txt "ann"; role = owner; created_ms = 1 } ∷ [];
    roles = [];
  };
  queue = [];
  schedules = [];
  job_claims = [];
  submitted = [];
}
