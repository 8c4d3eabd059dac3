-- ===== src/User/Uartserver.antt =====
-- src/user/uartserver.c: the tasks that own the serial lines. A request carries a character or
-- nothing, so its data is a natural number; a task id is one too, and the -1 of a variable without a
-- task is `none`. What a round of a server does to others, in order, is a list of actions.
pub mod Com2Tx
pub mod Com1
pub mod Com2Rx
use the_polling_express.Base.{ℕ, Bool, true, false, Option, none, some, ◌==◌}
use the_polling_express.Common.CircularBuffer.{Status, cb_empty}

pub data UartserverRequestType : Type 0 where
  notifier_tx_good notifier_rx_good send_char get_char release_lock : UartserverRequestType

pub record UartserverRequest : Type 0 where
  pub type : UartserverRequestType
  pub data_ : ℕ

-- `uart_put_char` with the character, and `Reply` with the task and the data
pub data UartAction : Type 0 where
  put_char : ℕ → UartAction
  reply_to : ℕ → ℕ → UartAction

unfoldable pub owns : Option ℕ → ℕ → Bool
owns none client = false
owns (some owner) client = owner == client

unfoldable pub is_free : Option ℕ → Bool
is_free none = true
is_free (some owner) = false

-- the next owner: what `cb_pop_front` wrote, or -1
unfoldable pub next_owner : Status → Option ℕ → Option ℕ
next_owner status item = elim status [ cb_empty ↦ none | _ ↦ item ]
