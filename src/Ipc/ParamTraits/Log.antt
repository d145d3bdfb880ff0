-- ===== src/Ipc/ParamTraits/Log.antt =====
-- libHH/ipc/ipc_message_utils.cpp: what the log of messages holds for one message.
use lib_hh_old.Common
use lib_hh_old.Common.{
  ℕ, zero, suc, ◌+◌, ◌-◌, ◌/◌, ◌≤◌, ◌<◌, ◌^◌, ◌%◌, ◌≡◌, refl, sym, ap, ◌∙◌, Bool, true, false, some,
  none, List, [], ◌∷◌, ◌++◌, append_assoc, arith, leb, if◌then◌else◌, length, take, replicate, All,
  Option,
}
use lib_hh_old.Common.Int.{ℤ, pos, IsInt, to_int}
use lib_hh_old.Base.Pickle.{Pickle, Allocator}
use lib_hh_old.Base.Pickle.Layout.{IsOwned}
use lib_hh_old.Base.PickleItems.{Item, encode}
use lib_hh_old.Base.PickleItems.Write.{HasRoom}
use lib_hh_old.Base.PickleItems.Read.{Returns, >>=-Returns, pure-Returns}
use lib_hh_old.Base.PickleIterator.{PickleIterator, Reader, ◌>>=◌, pure}
use lib_hh_old.Base.PickleIterator.Reads.{Ahead}
use lib_hh_old.Ipc.ParamTraits.{ParamTraits, int_param, uint_param, string_param}
use lib_hh_old.Ipc.ParamTraits.Codec.{IsCodec, Puts, >>=-Puts}
use lib_hh_old.Ipc.ParamTraits.Single.{int_param-IsCodec, uint_param-IsCodec, string_param-IsCodec}
use lib_hh_old.Ipc.ParamTraits.Many.{then-Returns}

pub record LogData : Type 0 where
  pub channel : List ℕ
  pub routing_id : ℤ
  pub type : ℕ
  pub message_name : List ℕ
  pub params : List ℕ

module _ (sizeof_string : ℕ) where
  unfoldable pub write_log_data : Allocator → LogData → Pickle → Option Pickle
  write_log_data alloc l p =
      Common.◌>>=◌ ((string_param sizeof_string).write alloc l.channel p) λ p1.
        Common.◌>>=◌ (int_param.write alloc l.routing_id p1) λ p2.
          Common.◌>>=◌ (uint_param.write alloc l.type p2) λ p3.
            Common.◌>>=◌ ((string_param sizeof_string).write alloc l.message_name p3)
              λ p4. (string_param sizeof_string).write alloc l.params p4

  unfoldable pub read_log_data : LogData → Reader LogData
  read_log_data r = do
    channel ← (string_param sizeof_string).read r.channel
    routing_id ← int_param.read r.routing_id
    type ← uint_param.read r.type
    message_name ← (string_param sizeof_string).read r.message_name
    params ← (string_param sizeof_string).read r.params
    pure (record {
      channel = channel;
      routing_id = routing_id;
      type = type;
      message_name = message_name;
      params = params;
    })

  abbrev pub log_data_param : ℕ → ParamTraits LogData
  log_data_param sizeof_log_data = record {
    write = write_log_data;
    read = read_log_data;
    fresh = record { channel = []; routing_id = pos 0; type = 0; message_name = []; params = [] };
    sizeof_param = sizeof_log_data;
  }

-- The parts of `LogData`, as they are written one after the other.
pub record IsLoggable (l : LogData) : Type 0 where
  pub channel_fits : length l.channel < 2 ^ 30
  pub routing_fits : IsInt l.routing_id
  pub type_fits : l.type < 2 ^ 32
  pub name_fits : length l.message_name < 2 ^ 30
  pub params_fit : length l.params < 2 ^ 30

abbrev pub encode_log_data : LogData → List ℕ
encode_log_data l =
    encode (Item.string l.channel)
    ++ (encode (Item.int l.routing_id)
        ++ (encode (Item.int (to_int l.type))
            ++ (encode (Item.string l.message_name) ++ encode (Item.string l.params))))

module _ (sizeof_string : ℕ) where
  write_log_data-Puts :
      (alloc : Allocator) (p : Pickle) (block : List ℕ) (l : LogData)
      → IsOwned p block
      → IsLoggable l
      → HasRoom p (length (encode_log_data l))
      → Puts p block (encode_log_data l) (write_log_data sizeof_string alloc l p)
  unfolding write_log_data
  write_log_data-Puts alloc p block l own h room =
      let string = string_param-IsCodec sizeof_string in
      >>=-Puts p block _ _ _ _ own room (string.puts alloc p block l.channel own h.channel_fits)
        (λ p1 b1 o1 r1.
          >>=-Puts p1 b1 _ _ _ _ o1 r1
            (int_param-IsCodec.puts alloc p1 b1 l.routing_id o1 h.routing_fits)
            (λ p2 b2 o2 r2.
              >>=-Puts p2 b2 _ _ _ _ o2 r2
                (uint_param-IsCodec.puts alloc p2 b2 l.type o2 h.type_fits)
                (λ p3 b3 o3 r3.
                  >>=-Puts p3 b3 _ _ _ _ o3 r3
                    (string.puts alloc p3 b3 l.message_name o3 h.name_fits)
                    (λ p4 b4 o4 r4. string.puts alloc p4 b4 l.params o4 h.params_fit r4))))

  read_log_data-Returns :
      (l r : LogData) (rest : List ℕ) (it : PickleIterator)
      → IsLoggable l
      → Ahead it (encode_log_data l ++ rest)
      → Returns (read_log_data sizeof_string r) l it rest
  unfolding read_log_data
  read_log_data-Returns l r rest it h ahead =
      let string = string_param-IsCodec sizeof_string in
      let text : ParamTraits (List ℕ) = string_param sizeof_string in
      let tail_4 : List ℕ → Reader LogData = λ name.
        text.read r.params >>= λ params. pure (record l { message_name = name; params = params }) in
      let tail_3 : ℕ → Reader LogData = λ type. text.read r.message_name >>= λ name.
      text.read r.params >>= λ params.
      pure (record l { type = type; message_name = name; params = params }) in
      let tail_2 : ℤ → Reader LogData = λ routing. uint_param.read r.type >>= λ type.
      text.read r.message_name >>= λ name. text.read r.params >>= λ params.
      pure (record l { routing_id = routing; type = type; message_name = name; params = params }) in
      let tail_1 : List ℕ → Reader LogData = λ channel. int_param.read r.routing_id >>= λ routing.
      uint_param.read r.type >>= λ type. text.read r.message_name >>= λ name.
      text.read r.params >>= λ params. pure (record {
        channel = channel;
        routing_id = routing;
        type = type;
        message_name = name;
        params = params;
      }) in
      then-Returns (text.read r.channel) tail_1 l.channel l it _ _ rest ahead
        (string.reads l.channel _ it h.channel_fits)
        (λ i1 a1.
          then-Returns (int_param.read r.routing_id) tail_2 l.routing_id l i1 _ _ rest a1
            (int_param-IsCodec.reads l.routing_id _ i1 h.routing_fits)
            (λ i2 a2.
              then-Returns (uint_param.read r.type) tail_3 l.type l i2 _ _ rest a2
                (uint_param-IsCodec.reads l.type _ i2 h.type_fits)
                (λ i3 a3.
                  then-Returns (text.read r.message_name) tail_4 l.message_name l i3 _ _ rest a3
                    (string.reads l.message_name _ i3 h.name_fits)
                    (λ i4 a4.
                      >>=-Returns (text.read r.params)
                        (λ params. pure (record l { params = params })) l.params l i4 rest rest
                        (string.reads l.params rest i4 h.params_fit a4)
                        (λ i5 a5. pure-Returns l i5 rest a5)))))

  pub log_data_param-IsCodec :
      (sizeof_log_data : ℕ)
      → IsCodec (log_data_param sizeof_string sizeof_log_data) IsLoggable encode_log_data
  log_data_param-IsCodec sizeof_log_data = record {
    puts = λ alloc p block l own h room. write_log_data-Puts alloc p block l own h room;
    reads = λ l rest it h ahead.
        read_log_data-Returns l (log_data_param sizeof_string sizeof_log_data).fresh rest it h
          ahead;
  }
