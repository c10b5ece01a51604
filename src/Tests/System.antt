-- ===== src/Tests/System.antt =====
-- An event of the provider on an order that is to be paid.
use maghsul_backend.Orders.StateMachine.{pending_pickup}
use maghsul_backend.Base.{none}
use maghsul_backend.Store.{Order, online, unpaid}
use maghsul_backend.System.{webhook_processed, answer, board, Step}
use maghsul_backend.System.Life.{answer-Step}
use maghsul_backend.Tests.Fixture.{order_one, tables, env_one}

abbrev unpaid_order : Order
unpaid_order = order_one pending_pickup online unpaid none

answer-Step_example :
    Step
      (board (tables unpaid_order))
      (board (answer (webhook_processed 8) env_one (tables unpaid_order)))
answer-Step_example = answer-Step (webhook_processed 8) env_one (tables unpaid_order)
