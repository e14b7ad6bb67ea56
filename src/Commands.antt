-- ===== src/Commands.antt =====
-- The queue of commands for the readers of router/iclock.py: `queue_device_cmd`, and the part of
-- `getrequest_handler` that hands a command out.
pub mod Fifo
use pumo_bio_metric.Prelude.{ℕ, ◌+◌, List, [], ◌∷◌, ◌++◌, Option, none, some}
use pumo_bio_metric.Text.{Text, codes, strip, upper, is_empty}
use pumo_bio_metric.Text.Numbers.{str}
use pumo_bio_metric.Dict
use pumo_bio_metric.Dict.{Dict}

-- `DEVICE_COMMAND_QUEUE` and `_DEVICE_CMD_COUNTER`
pub record Commands : Type 0 where
  pub queue : Dict (List Text)
  pub counter : ℕ

-- Both at import.
abbrev pub no_commands : Commands
no_commands = record { queue = []; counter = 1000 }

-- `str(sn or "").strip().upper()`
unfoldable pub clean_sn : Text → Text
unfolding strip upper
clean_sn sn = upper (strip sn)

abbrev pub listed_for : Option (List Text) → List Text
listed_for none = []
listed_for (some cmds) = cmds

-- The commands that wait for a reader.
abbrev pub pending : Text → Commands → List Text
pending sn s = listed_for (Dict.get s.queue sn)

-- f"C:{counter}:{cmd_body.strip()}"
unfoldable pub command : ℕ → Text → Text
unfolding strip
command n body = codes "C:" ++ (str n ++ (codes ":" ++ strip body))

-- `queue_device_cmd`
unfoldable pub queue_device_cmd : Text → Text → Commands → Text × Commands
queue_device_cmd sn body s =
    let cmd = command (s.counter + 1) body in
    (
      cmd,
      record {
        queue = Dict.put s.queue (clean_sn sn) (pending (clean_sn sn) s ++ cmd ∷ []);
        counter = s.counter + 1;
      },
    )

abbrev pub pop_command : Text → List Text → Commands → Text × Commands
pop_command sn [] s = (codes "OK", s)
pop_command sn (cmd ∷ cmds) s = (cmd, record s { queue = Dict.put s.queue sn cmds })

-- `clean_sn and clean_sn in DEVICE_COMMAND_QUEUE and DEVICE_COMMAND_QUEUE[clean_sn]`
abbrev pub next_for : Text → Commands → Text × Commands
next_for [] s = (codes "OK", s)
next_for (c ∷ cs) s = pop_command (c ∷ cs) (pending (c ∷ cs) s) s

-- What a poll of `getrequest_handler` answers; a poll without a serial number has the empty one
unfoldable pub next_command : Text → Commands → Text × Commands
next_command sn s = next_for (clean_sn sn) s
