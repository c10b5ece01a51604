-- ===== src/Lib.antt =====
-- A laundry marketplace's backend: customers order, drivers fetch and bring, the staff of a laundry
-- moves an order through the laundry, and payments come from the provider Moyasar or in cash. Staff
-- joins a laundry by invitation, and everybody acts in a session.
--
-- The parts and the files that model them:
--   * Orders/StateMachine: src/modules/orders/order-state-machine.js, the table of statuses
--     (`allowed_transitions`) and the check of a transition (`assert_order_transition`).
--   * Orders/WasherStatus, DriverStatus, Cancel, Reads: src/modules/orders/order.service.js, the
--     functions updateWasherStatus, updateDriverStatus, customerCancel, getOrder and getOrderInvoice.
--     The three that write ask the check of Orders/StateMachine first. Orders/Create: createOrder.
--     Orders/Pages: myOrders, over src/modules/orders/order.model.js.
--   * Laundries: src/modules/washers/coverage.service.js, the places of a request and what a branch
--     covers, which createOrder asks.
--   * Payments/Service: src/modules/payments/payment.service.js, the provider's payments and the
--     settlements. Payments/Sync says when the invoices agree with the orders.
--   * Payments/Reception: src/modules/payments/webhook.service.js, the reception of an event of the
--     provider. Payments/Webhook: webhook-processor.service.js, its processing, which confirms an
--     order by the same check.
--   * Payments/Refund: src/modules/payments/refund.service.js.
--   * Auth/Otp and Auth/Digits: src/modules/auth/services/otp.service.js and src/utils/digits.js, the
--     one-time codes. Auth/Guard: src/middlewares/contextGuard.js, the checks of a session.
--   * Auth/Sessions: src/modules/auth/services/session.service.js, sessions, refresh tokens and the
--     states in Redis. Sessions/Tables holds the rows; Create, Revoke, Rotate and State the
--     operations; Steps puts them side by side in any order. A rotation reads (`read_token`) and then
--     writes (`rotate_writes`), and Steps lets other calls come between. Sessions/Claims and
--     Sessions/Guarded set the payloads that are signed against the guard of Auth/Guard.
--   * Auth/Permissions: src/modules/auth/services/permission.service.js. Permissions/Cache says when
--     the sets in Redis agree with the tables.
--   * Auth/Invitations: src/modules/auth/services/staff-invitation.service.js, with the acceptance in
--     Invitations/Accept, also a read and a transaction. Auth/Phone: src/utils/phoneNormalizer.js.
--   * System: the handlers updateWasherStatus, updateDriverStatus and customerCancel, the payment
--     service, the webhooks and the refunds side by side, over an abstract machine that knows the
--     status of each order and nothing else. claimPickupTask of src/modules/drivers/drivers.service.js,
--     which sets a status without the check of a transition, is not among them.
--   * Notifications/Outbox: src/modules/notifications/notification-outbox.repository.js and
--     notification-processing-lease.repository.js; its children put the calls of dispatchers and
--     workers side by side in any order.
--   * Store: the tables of prisma/schema.prisma that these services share, the realtime outbox
--     (src/modules/realtime/realtime-outbox.service.js) and the jobs of the notification queue.
--   * Base: lists as tables, tests, signed integers, and `Outcome`, the value or the thrown error of
--     a handler, with the state that is left. Tests: concrete runs.
--
-- How the code corresponds. A handler is a function of its arguments and of the tables (`Store`) into
-- an `Outcome`; `transaction` puts the tables back when its body throws, as prisma.$transaction does.
-- One call is one step, but for the rotation of a token and the acceptance of an invitation, which
-- may act on rows that were read before other calls. The time and the identifiers that the database
-- gives are arguments (`Env`, `Draw`, `InviteDraw`, `Surroundings`), and so are what the provider and
-- the geocoder answer, the hashes, and the failures of Redis and the database (`Draw`, `Weather`).
-- A text that is only compared is a number; a text for a status that is none of the twenty is
-- `other`. Amounts are natural numbers of halalas, that of a refund an integer. The loop over the
-- cancelled tasks is recursion on their list, so no bound or fuel is needed; the pages of orders that
-- a client follows have fuel, one page more than there are orders, and a theorem that it is enough.
--
-- Not modelled: the items of orders and their prices, accounts, the loop of the dispatcher, sockets,
-- the settings of laundries and drivers, HTTP routes and configuration. The distance of two places and
-- the test of a polygon are floating point and stand as arguments (`Geometry`). The texts of
-- notifications, the raw answers of the provider and the columns that no test reads are left out.
pub mod Base
pub mod Store
pub mod Orders
pub mod Payments
pub mod Auth
pub mod Notifications
pub mod Laundries
pub mod System
pub mod Tests
