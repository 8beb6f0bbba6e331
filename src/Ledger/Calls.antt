-- ===== src/Ledger/Calls.antt =====
-- Any sequence of calls of the ledger's methods, a call that throws included.
use exchanger.Prelude.{String, List, [], ◌∷◌}
use exchanger.Decimal.{Decimal}
use exchanger.Ledger.Posting.{Asset, Account}
use exchanger.Ledger.State.{Ledger, Action, OperationResult}
use exchanger.Ledger.Operations.{
  register_asset, register_account, open_balance, credit, debit, transfer, settle_reserved_transfer,
  reserve, release, compensate,
}

-- The methods that take an operation id, which comes first.
pub data Operation : Type 0 where
  credits debits reserves releases : String → String → String → Decimal → Operation
  transfers settles : String → String → String → String → Decimal → Operation
  compensates : String → String → Operation

abbrev pub operation_id : Operation → String
operation_id (credits o account asset amount) = o
operation_id (debits o account asset amount) = o
operation_id (reserves o account asset amount) = o
operation_id (releases o account asset amount) = o
operation_id (transfers o debtor creditor asset amount) = o
operation_id (settles o debtor creditor asset amount) = o
operation_id (compensates c o) = c

unfoldable pub execute : Operation → Action OperationResult
unfolding credit debit reserve release transfer settle_reserved_transfer compensate
execute (credits o account asset amount) = credit o account asset amount
execute (debits o account asset amount) = debit o account asset amount
execute (reserves o account asset amount) = reserve o account asset amount
execute (releases o account asset amount) = release o account asset amount
execute (transfers o debtor creditor asset amount) = transfer o debtor creditor asset amount
execute (settles o debtor creditor asset amount) =
    settle_reserved_transfer o debtor creditor asset amount
execute (compensates c o) = compensate c o

pub data Call : Type 0 where
  registers_asset : Asset → Call
  registers_account : Account → Call
  opens_balance : String → String → Call
  executes : Operation → Call

-- The state that a call leaves, whether it returns or throws.
unfoldable pub perform : Call → Ledger → Ledger
unfolding register_asset register_account open_balance execute
perform (registers_asset asset) l = (register_asset asset l).1
perform (registers_account account) l = (register_account account l).1
perform (opens_balance account asset) l = (open_balance account asset l).1
perform (executes operation) l = (execute operation l).1

unfoldable pub perform_all : List Call → Ledger → Ledger
perform_all [] l = l
perform_all (call ∷ calls) l = perform_all calls (perform call l)
