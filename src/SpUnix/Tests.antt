-- ===== src/SpUnix/Tests.antt =====
-- The theorems on serial ports at a port that has just been opened.
use octcommu.Shared.{
  length-replicate, replicate, ℕ, ◌+◌, ◌<◌, ◌≤◌, ◌≡◌, refl, List, [], ◌∷◌, some, none, true, false,
  arith, length, pos, inl, inr,
}
use octcommu.FixedBuffer
use octcommu.FixedBuffer.Valid.{IsValid, create-IsValid}
use octcommu.SpBuffer
use octcommu.SpParams.{SpInit}
use octcommu.SpUnix.{SpUnix, max_buffer_len, send}
use octcommu.SpUnix.Sending.{WriteResult, wrote, again, flush_all_data, write_event}
use octcommu.SpUnix.Sending.Flush.{HasCaches}
use octcommu.SpUnix.Poller.Sends.{
  AllQuiet, Exchange, talk, messages, AllWork, IsReady, talk-messages,
}
use octcommu.SpUnix.Sending.Loop.{Delivers}
use octcommu.SpUnix.Poller.{Round, SelectResult}
use octcommu.SpUnix.Api.{write_event-send, flush_all_data-send-none}
use octcommu.SpUnix.Reading.{on_read_data, push_data_2_client, read_event, got, again}
use octcommu.SpUnix.Reading.Parts.{Whole, Part}
use octcommu.SpUnix.Reading.Events.{push_data_2_client-read_event, read_event_three_parts}
use octcommu.SpUnix.Reading.Chunks.{Pieces, push_data_2_client-on_read_data}
use octcommu.SpBuffer.Laws.{reset-IsValid}
use octcommu.SpUnix.Reading.Overflow.{read_event-read_loop}

abbrev settings : SpInit
settings = record {
  name = 65 ∷ [];
  baud = 9600;
  parity = 0;
  data_bits = 8;
  stop_bits = 0;
  flow_ctrl = 0;
  recv_interval_timeout = 10;
  is_to_recv = true;
}

abbrev opened : SpUnix
opened = record {
  recv_func = true;
  sp_init = settings;
  sp_fd = pos 3;
  next_read_len = 2;
  recv_thread_is_running = true;
  listen_to_write = false;
  sp_suspend = false;
  recv_buffer = FixedBuffer.create max_buffer_len 100000;
  send_l2_cache = FixedBuffer.create max_buffer_len 200000;
  send_l1_cache = FixedBuffer.create max_buffer_len 300000;
  send_swap_cache = FixedBuffer.create max_buffer_len 400000;
  sp_buf = SpBuffer.reset max_buffer_len;
  sent_bytes = 0;
  recv_bytes = 0;
  error_str = "";
  pending = 0;
}

cache-IsValid :
    (at : ℕ) → at < 500000 → IsValid max_buffer_len (FixedBuffer.create max_buffer_len at)
cache-IsValid at low = create-IsValid max_buffer_len at (omega arith) (omega arith)

opened-HasCaches : HasCaches opened
unfolding FixedBuffer.create
opened-HasCaches = record {
  swap_cache = cache-IsValid 400000 (omega arith);
  l1 = cache-IsValid 300000 (omega arith);
  l2 = cache-IsValid 200000 (omega arith);
  apart = ground arith;
  l2_empty = refl;
}

abbrev message : List ℕ
message = 1 ∷ 2 ∷ 3 ∷ 4 ∷ 5 ∷ []

nothing_waits : opened.sp_buf.start ≡ opened.sp_buf.stop
unfolding SpBuffer.reset
nothing_waits = refl

room_behind : opened.sp_buf.stop + length message ≤ max_buffer_len
unfolding SpBuffer.reset
room_behind = omega arith

abbrev in_parts : List WriteResult
in_parts = wrote 2 ∷ again ∷ wrote 3 ∷ []

write_event-send_example :
    (v : SpUnix) × (w : SpUnix) × (send opened message ≡ some (pos (length message), v))
    × (v.listen_to_write ≡ true)
    × (write_event 2 in_parts true v ≡ some (message, w))
    × HasCaches w
    × (w.listen_to_write ≡ false)
    × (w.sent_bytes < 0 + length message)
write_event-send_example =
    write_event-send opened message opened-HasCaches 1 in_parts refl refl (omega arith)
      (omega arith) (omega arith, inr (omega arith, (omega arith, inl (omega arith))))

flush_all_data-send-none_example :
    (v : SpUnix) × (send opened [] ≡ some (pos 0, v))
    × (v.listen_to_write ≡ true)
    × (flush_all_data 9 in_parts v ≡ none)
flush_all_data-send-none_example =
    flush_all_data-send-none opened [] opened-HasCaches 9 in_parts refl refl (inl refl)

push_data_2_client-on_read_data_example :
    (v : SpUnix) × (w : SpUnix) × (cs : List (List ℕ)) × (on_read_data opened message ≡ some v)
    × (push_data_2_client 6 v ≡ some (cs, w))
    × Pieces 2 message cs
    × (w.sp_buf.start ≡ w.sp_buf.stop)
push_data_2_client-on_read_data_example =
    push_data_2_client-on_read_data opened message (reset-IsValid max_buffer_len) nothing_waits
      room_behind 6 refl (omega arith) (omega arith)

opened_sized : length opened.recv_buffer.bytes ≡ max_buffer_len
unfolding FixedBuffer.create
opened_sized = length-replicate {A = ℕ} max_buffer_len 0

part : Part Whole message (again ∷ got (1 ∷ 2 ∷ []) ∷ again ∷ got (3 ∷ 4 ∷ 5 ∷ []) ∷ [])
part = Part.wait (
    Part.now (1 ∷ 2 ∷ []) (3 ∷ 4 ∷ 5 ∷ []) (omega arith) (omega arith) refl
      (Whole.wait (Whole.now [])))

abbrev one_two_three : List ℕ
one_two_three = 1 ∷ 2 ∷ 3 ∷ []

push_data_2_client-read_event_example :
    (v : SpUnix) × (w : SpUnix) × (cs : List (List ℕ)) × (read_event
        (again ∷ got (1 ∷ 2 ∷ []) ∷ again ∷ got (3 ∷ 4 ∷ 5 ∷ []) ∷ [])
        true
        (pos (length message))
        opened
      ≡ some v)
    × (push_data_2_client 6 v ≡ some (cs, w))
    × Pieces 2 message cs
push_data_2_client-read_event_example =
    push_data_2_client-read_event opened opened_sized message
      (again ∷ got (1 ∷ 2 ∷ []) ∷ again ∷ got (3 ∷ 4 ∷ 5 ∷ []) ∷ []) 6 refl
      (reset-IsValid max_buffer_len) nothing_waits room_behind (omega arith) (inr part)
      (omega arith) (omega arith)

read_event_three_parts_example :
    read_event
      (got (1 ∷ []) ∷ got (2 ∷ []) ∷ got (3 ∷ []) ∷ replicate 4 again)
      true
      (pos (length one_two_three))
      opened
    ≡ none
read_event_three_parts_example =
    read_event_three_parts opened opened_sized (1 ∷ []) (2 ∷ []) (3 ∷ []) 4 (omega arith)
      (omega arith) (omega arith) (omega arith)

abbrev long_part : List ℕ
long_part = replicate 10239 3

long_part_size : length long_part ≡ 10239
long_part_size = length-replicate {A = ℕ} 10239 3

read_event-read_loop_example :
    read_event (got (1 ∷ []) ∷ got (2 ∷ []) ∷ got long_part ∷ []) true (pos 10240) opened ≡ none
read_event-read_loop_example =
    read_event-read_loop opened (1 ∷ []) (2 ∷ []) long_part 10240 [] opened_sized (omega arith)
      (omega arith) (omega arith) (omega arith) (omega (arith, long_part_size))
      (omega (arith, long_part_size))

abbrev waiting_round : Round
waiting_round = record {
  select = SelectResult.timed_out;
  available = pos 0;
  reads = [];
  writes = [];
}

abbrev writing_round : Round
writing_round = record waiting_round { select = SelectResult.ready false true; writes = in_parts }

-- Two messages, each after a round that has timed out.
abbrev exchanges : List Exchange
exchanges =
    record { message = message; idle = waiting_round ∷ []; last = writing_round }
    ∷ record { message = message; idle = []; last = writing_round }
    ∷ []

in_parts-Delivers : Delivers (length message) in_parts
in_parts-Delivers = (omega arith, inr (omega arith, (omega arith, inl (omega arith))))

exchanges-AllWork : AllWork exchanges
exchanges-AllWork =
    AllWork.cons
      (record {
        some_bytes = omega arith;
        room = omega arith;
        quiet = AllQuiet.cons (inl refl) AllQuiet.nil;
        writable = refl;
        delivers = in_parts-Delivers;
      })
      (AllWork.cons
        (record {
          some_bytes = omega arith;
          room = omega arith;
          quiet = AllQuiet.nil;
          writable = refl;
          delivers = in_parts-Delivers;
        })
        AllWork.nil)

opened-IsReady : IsReady opened
opened-IsReady = record { caches = opened-HasCaches; open_now = refl; awake = refl; running = refl }

talk-messages_example :
    (z : SpUnix) × (talk 2 0 exchanges opened ≡ some (messages exchanges, 0, z)) × IsReady z
talk-messages_example = talk-messages 1 0 opened-IsReady exchanges-AllWork
