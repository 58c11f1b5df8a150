-- ===== src/Service/Sample.antt =====
-- A PJSUA for concrete inputs: every call succeeds and every call is active. It keeps what the codecs
-- and the messages do to its state.
use end_to_end_smkex.Base.{
  ℕ, ◌+◌, refl, arith, Bool, true, List, [], ◌∷◌, none, some, false, pos, MpString, str_eq,
  if◌then◌else◌,
}
use end_to_end_smkex.Utils.Addresses.{rfind_char}
use end_to_end_smkex.Sip.Delivery.{IsReadable}
use end_to_end_smkex.Service.Pjsua.{Pjsua, connecting}
use end_to_end_smkex.Service.State.{
  MpAccSettings, wifi, MpService, new_sip_stack, new_call_manager, new_user_account,
}
use end_to_end_smkex.AutoResend.Payload.{MpMsgPayload, message}

abbrev pub quiet :
    {W : Type 0} (set_priority : MpString → ℕ → W → Bool × W) (codecs : List MpString) → Pjsua W
quiet set_priority codecs = record {
  create = λ w. (true, w);
  init = λ level w. (true, w);
  transport_create = λ verify w. (true, w);
  start = λ w. (true, w);
  destroy = λ w. w;
  destroy2 = λ w. (true, w);
  get_snd_dev = λ w. (pos 0, pos 0);
  set_snd_dev = λ capture playback w. w;
  set_no_snd_dev = λ w. w;
  acc_add = λ id uri w. (some (pos 0), w);
  acc_set_online_status = λ id b w. (true, w);
  acc_set_registration = λ id b w. (true, w);
  acc_status = λ id w. 200;
  enum_codecs = λ w. (true, codecs);
  codec_set_priority = set_priority;
  buddy_add = λ uri w. (some (pos 7), w);
  buddy_del = λ id w. (true, w);
  buddy_is_online = λ id w. true;
  call_make_call = λ id uri w. (true, w);
  call_get_info = λ id w. some (record {
    state = connecting;
    last_status = 100;
    remote_contact = [];
    media_is_active = true;
    conf_slot = pos 1;
  });
  call_answer = λ id code w. (true, w);
  call_hangup = λ id code w. w;
  call_hangup_all = λ w. w;
  call_is_active = λ id w. true;
  call_get_count = λ w. 1;
  call_set_hold = λ id w. (true, w);
  call_unhold = λ id w. (true, w);
  conf_connect = λ source sink w. w;
  conf_adjust_rx_level = λ level w. (true, w);
  im_send = λ id to content w. (true, w);
  start_timer = λ t seconds w. w;
  stop_timer = λ t w. w;
  timer_is_active = λ t w. true;
  tick_timer = λ t w. w;
}

-- The state is the number of priorities set.
abbrev pub sample : Pjsua ℕ
sample = quiet (λ codec priority n. (true, n + 1)) []

-- The state is the priority of every codec.
abbrev pub with_codecs : List MpString → Pjsua (MpString → ℕ)
with_codecs =
    quiet (λ codec priority table.
      (true, λ other. if str_eq codec other then priority else table other))

-- The transport's message before the first one is sent.
abbrev no_message : MpMsgPayload
no_message = record {
  user_serial = [];
  payload = record { payload = none; len = 0 };
  uid = pos 0;
  number_of_retries = pos 0;
  xfer_status = pos 0;
  acc_id = pos 0;
  message_type = message;
  processed = false;
}

abbrev pub settings : MpAccSettings
settings = record {
  server_address = b'h' ∷ [];
  port = b'9' ∷ [];
  user_name = b'a' ∷ b'l' ∷ [];
  pjsip_log_level = 0;
  network_state = wifi;
  verify_server = true;
}

pub settings-IsReadable : IsReadable settings
unfolding rfind_char
settings-IsReadable = record {
  first = b'a';
  others = b'l' ∷ [];
  named = refl;
  short = omega arith;
  address_plain = refl;
  port_plain = refl;
}

abbrev pub fresh : MpService ℕ
fresh = record {
  sip_stack = new_sip_stack;
  call_manager = new_call_manager;
  user_account = record new_user_account { reg_cb = 3 ∷ 4 ∷ [] };
  buddy_list = record { buddy_list = []; presence_cb = []; presence_calls = [] };
  data_msg = record { msg_cb = 5 ∷ 6 ∷ []; inv_cb = []; deliveries = [] };
  msg_transport = record { msg_notif = true; msg = no_message; counter = pos 0; events = [] };
  outside = 0;
}

-- A service in a call.
abbrev pub busy : MpService ℕ
busy = record fresh {
  sip_stack = record new_sip_stack { started = true; acc_id = pos 0 };
  call_manager = record new_call_manager { call_id = pos 2; call_cb = 8 ∷ 9 ∷ []; timer = some 1 };
  user_account = record fresh.user_account { acc_settings = settings };
}
