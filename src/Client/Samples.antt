-- ===== src/Client/Samples.antt =====
-- A browser and the refs of a fresh page, for the tests.
use korechat.Common.{[], lit, true, false}
use korechat.Client.{Env, Refs}

abbrev pub env : Env
env = record {
  now = lit "10:00";
  random_id = [];
  notif_granted = false;
  only_when_hidden = true;
  notif_dms = true;
  notif_mentions = true;
  hidden = false;
}

abbrev pub refs : Refs
refs = record {
  my_nick = [];
  channels = [];
  messages = [];
  batch_buf = [];
  names_buf = [];
  motd_buf = [];
  whois_buf = [];
  monitor_unsupported = [];
  replay_done = [];
  default_chans = [];
  loaded_history = [];
  ready = [];
}
