-- ===== src/Enums/Names.antt =====
-- The wire names of src/enums.rs tell the message types apart.
use dendri_server.Common.{◌≡◌, refl, Option, none, some, Text, codes, text_beq, if◌then◌else◌}
use dendri_server.Enums.{MessageType, as_str}

-- What serde does with a name: the type that has it.
pub from_str : Text → Option MessageType
from_str s =
    if text_beq s (codes "OPEN")
    then some MessageType.open_
    else if text_beq s (codes "LEAVE")
    then some MessageType.leave
    else if text_beq s (codes "CANDIDATE")
    then some MessageType.candidate
    else if text_beq s (codes "OFFER")
    then some MessageType.offer
    else if text_beq s (codes "ANSWER")
    then some MessageType.answer
    else if text_beq s (codes "EXPIRE")
    then some MessageType.expire
    else if text_beq s (codes "HEARTBEAT")
    then some MessageType.heartbeat
    else if text_beq s (codes "ID-TAKEN")
    then some MessageType.id_taken
    else if text_beq s (codes "ERROR")
    then some MessageType.error
    else if text_beq s (codes "DATA")
    then some MessageType.data_
    else if text_beq s (codes "ACK")
    then some MessageType.ack
    else if text_beq s (codes "ROOM-JOIN")
    then some MessageType.room_join
    else if text_beq s (codes "ROOM-LEAVE")
    then some MessageType.room_leave
    else if text_beq s (codes "ROOM-PEERS")
    then some MessageType.room_peers
    else if text_beq s (codes "PRESENCE-UPDATE")
    then some MessageType.presence_update
    else none

-- Reading the wire name of a message type gives the type back.
from_str-as_str : (t : MessageType) → from_str (as_str t) ≡ some t
unfolding from_str as_str text_beq
from_str-as_str MessageType.open_ = refl
from_str-as_str MessageType.leave = refl
from_str-as_str MessageType.candidate = refl
from_str-as_str MessageType.offer = refl
from_str-as_str MessageType.answer = refl
from_str-as_str MessageType.expire = refl
from_str-as_str MessageType.heartbeat = refl
from_str-as_str MessageType.id_taken = refl
from_str-as_str MessageType.error = refl
from_str-as_str MessageType.data_ = refl
from_str-as_str MessageType.ack = refl
from_str-as_str MessageType.room_join = refl
from_str-as_str MessageType.room_leave = refl
from_str-as_str MessageType.room_peers = refl
from_str-as_str MessageType.presence_update = refl
