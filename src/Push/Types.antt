-- ===== src/Push/Types.antt =====
-- internal/domain/device.go, message.go and delivery.go. Platforms and providers are strings, as
-- in the source; times and durations are nanoseconds, unless a name says seconds.
use mgl_communication.Base.{ℕ, String, Bool, true, false, Option, Dict, ◌==◌, ◌||◌, Error}

-- `MessageType` is a string: the constants, the empty string, and any other.
pub data MessageType : Type 0 where
  unset notification silent background incoming_call call_cancelled call_ended : MessageType
  unknown : String → MessageType

pub data MessageStatus : Type 0 where
  created queued sending accepted completed failed : MessageStatus

pub data DeliveryStatus : Type 0 where
  pending sending accepted delivered opened failed retrying : DeliveryStatus

pub record Device : Type 0 where
  pub id : String
  pub user_id : String
  pub installation_id : String
  pub platform : String
  pub provider : String
  pub token : String
  pub app_id : String
  pub app_version : String
  pub os_version : String
  pub device_model : String
  pub locale : String
  pub timezone : String
  pub status : String
  pub created_at : ℕ
  pub updated_at : ℕ
  pub last_seen_at : ℕ

pub record Message : Type 0 where
  pub id : String
  pub type : MessageType
  pub title : String
  pub body : String
  pub payload : Dict String
  pub image_url : String
  pub priority : String
  pub ttl_seconds : Option ℕ
  pub collapse_key : String
  pub sound : String
  pub badge : Option ℕ
  pub deep_link : String
  pub category : String
  pub app_id : String
  pub status : MessageStatus
  pub created_at : ℕ
  pub queued_at : Option ℕ
  pub completed_at : Option ℕ

pub record Delivery : Type 0 where
  pub id : String
  pub message_id : String
  pub device_id : String
  pub provider : String
  pub status : DeliveryStatus
  pub provider_message_id : String
  pub error_code : String
  pub error_message : String
  pub attempts : ℕ
  pub created_at : ℕ
  pub sent_at : Option ℕ
  pub next_retry_at : Option ℕ

-- The payload of a call push.
pub record IncomingCall : Type 0 where
  pub call_id : String
  pub caller_id : String
  pub callee_id : String
  pub media_type : String
  pub caller_name : String
  pub timestamp : Option ℕ
  pub expires_at : Option ℕ

abbrev pub is_call_related : MessageType → Bool
is_call_related incoming_call = true
is_call_related call_cancelled = true
is_call_related call_ended = true
is_call_related _ = false

abbrev pub is_data_only : MessageType → Bool
is_data_only silent = true
is_data_only background = true
is_data_only incoming_call = true
is_data_only call_cancelled = true
is_data_only call_ended = true
is_data_only _ = false

abbrev pub type_name : MessageType → String
type_name unset = ""
type_name notification = "notification"
type_name silent = "silent"
type_name background = "background"
type_name incoming_call = "incoming_call"
type_name call_cancelled = "call_cancelled"
type_name call_ended = "call_ended"
type_name (unknown s) = s

abbrev pub is_allowed_provider : String → Bool
is_allowed_provider p =
    p == "huawei"
    || p == "xiaomi"
    || p == "oppo"
    || p == "vivo"
    || p == "fcm"
    || p == "apns"
    || p == "apns_voip"

pub record SendMessageResult : Type 0 where
  pub message_id : String
  pub accepted : Bool
  pub duplicate : Bool

-- A statement that a Send has the database execute. CreateMany inserts its rows one by one.
pub data Statement : Type 0 where
  resolving creating upserting queueing : Statement
  inserting : ℕ → Statement

-- The libraries' part: the ULIDs that idgen.New draws, in their order, strconv.FormatInt, and the
-- error of a statement, if any, in the Send that draws its ids from the given number.
pub record Tools : Type 0 where
  pub new_id : ℕ → String
  pub format : ℕ → String
  pub fails : ℕ → Statement → Option Error
