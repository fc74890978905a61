-- ===== src/Events/Classes.antt =====
-- The constants of the event classes: events/json/**, events/binner/**.
use gateway_realtime.Common.{ℕ, String, Bool, true, false, Option, none, some, List, [], ◌∷◌}
use gateway_realtime.EventRecord.{Qos, qos0, qos1, qos2}
use gateway_realtime.Principal.{EnduserType, browser, device, self, server, Product, absensi, bell}

-- Which override of `modifiedPayload` and of the side effect a class has.
pub data EventKind : Type 0 where
  forwards acknowledges scans cancels lists_reservations : EventKind
  creates_bell destroys_bell destroys_all_bells : EventKind
  uploads : EventKind

pub record EventClass : Type 0 where
  pub label : String
  pub label_to_receiver : String
  pub product : Option Product
  pub sender : Option EnduserType
  pub receiver : EnduserType
  pub qos : Qos
  pub notify_sender : Bool
  pub ttl : ℕ
  pub allowed_event : List String
  pub by_mode : Bool
  pub checks_structure : Bool
  pub kind : EventKind

-- The defaults of `BaseWsEventJSON`; `by_mode` is set where the class takes the event from the
-- payload's `mode`.
abbrev base_class : EventClass
base_class = record {
  label = "";
  label_to_receiver = "";
  product = none;
  sender = none;
  receiver = server;
  qos = qos0;
  notify_sender = true;
  ttl = 30000;
  allowed_event = [];
  by_mode = false;
  checks_structure = true;
  kind = forwards;
}

abbrev pub event_acknowledgment : EventClass
event_acknowledgment = record base_class {
  label = "event:ack";
  label_to_receiver = "event:delivered";
  kind = acknowledges;
}

abbrev absensi_class : EventClass
absensi_class = record base_class { product = some absensi; sender = some device }

abbrev pub rfid_scan : EventClass
rfid_scan = record absensi_class {
  label = "rfid-scan";
  label_to_receiver = "result-scan";
  receiver = browser;
  qos = qos1;
  allowed_event = "register" ∷ "login" ∷ "update" ∷ [];
  by_mode = true;
  kind = scans;
}

abbrev pub cancel_reservasi : EventClass
cancel_reservasi = record absensi_class {
  label = "cancel-reservasi";
  label_to_receiver = "cancel-reservasi";
  receiver = self;
  qos = qos2;
  notify_sender = false;
  allowed_event = "cancel-reservasi" ∷ [];
  kind = cancels;
}

abbrev pub get_all_reservasi : EventClass
get_all_reservasi = record absensi_class {
  label = "get-all-reservasi";
  label_to_receiver = "get-all-reservasi";
  receiver = self;
  qos = qos1;
  allowed_event = "get-all-reservasi" ∷ [];
  kind = lists_reservations;
}

abbrev pub change_mode : EventClass
change_mode = record base_class {
  label = "change-mode";
  label_to_receiver = "change-mode";
  product = some absensi;
  sender = some browser;
  receiver = device;
  qos = qos2;
  notify_sender = false;
  allowed_event = "register" ∷ "login" ∷ "update" ∷ [];
  by_mode = true;
}

abbrev bell_class : String → EventClass
bell_class name = record base_class {
  label = name;
  label_to_receiver = name;
  product = some bell;
  sender = some browser;
  receiver = device;
  qos = qos2;
  allowed_event = name ∷ [];
}

abbrev pub create_sesi : EventClass
create_sesi = record (bell_class "create-sesi") { kind = creates_bell }

abbrev pub destroy_all_sesi : EventClass
destroy_all_sesi = record (bell_class "destroy-all-sesi") {
  checks_structure = false;
  kind = destroys_all_bells;
}

abbrev pub destroy_sesi : EventClass
destroy_sesi = record (bell_class "destroy-sesi") { kind = destroys_bell }

abbrev pub sync_alarm : EventClass
sync_alarm = bell_class "sync-alarm"

abbrev pub send_metadata_audio : EventClass
send_metadata_audio = record (bell_class "send-metadata-audio") {
  label_to_receiver = "get-metadata-audio";
  sender = some device;
  receiver = browser;
}

abbrev pub upload_audio_start : EventClass
upload_audio_start = record (bell_class "upload-audio-start") {
  label_to_receiver = "lets-fucking-go";
  ttl = 3000;
  allowed_event = [];
  kind = uploads;
}

abbrev pub upload_audio_end : EventClass
upload_audio_end = record (bell_class "upload-audio-end") {
  label_to_receiver = "thats-it-b1tch";
  allowed_event = [];
  checks_structure = false;
  kind = uploads;
}

-- The classes in the order in which the message service registers them.
abbrev pub event_classes : List EventClass
event_classes =
    change_mode ∷ rfid_scan ∷ cancel_reservasi ∷ get_all_reservasi ∷ create_sesi ∷ destroy_all_sesi
    ∷ destroy_sesi ∷ sync_alarm ∷ send_metadata_audio ∷ upload_audio_start ∷ upload_audio_end
    ∷ event_acknowledgment ∷ []
