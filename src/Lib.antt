-- ===== src/Lib.antt =====
-- A verification library of the commerce platform: the Go services under services/ and the shared
-- packages under pkg/. Each module translates one part of the code; the theorems at the end of this
-- header are about those translations.
--
-- The parts and how they interact. A checkout prices a cart (services/pricing), reserves its stock
-- (services/inventory), opens a payment (services/payment) and inserts an order (services/order);
-- events that each service writes into its outbox table, in the transaction of the change, move the
-- order on: an authorized payment confirms it and commits the reservation, a failed payment or an
-- expired reservation cancels it, and the deliveries of its shipments fulfil it. A relay publishes the
-- outbox rows to Kafka, and a consumer hands them to a service (pkg/kafka). The carts
-- themselves live in a key-value store (services/cart). Errors of all services are of one taxonomy
-- (pkg/errs), which is mapped to gRPC codes at the service and to HTTP statuses at the edge.
--
-- The files.
--   Common                 outcomes of fallible calls (pkg/errs/errs.go: Kind, Error, New), tables
--                          keyed by text, and Go's int32 and int64 with their wrap-around.
--   Errs                   pkg/errs/errs.go and pkg/errs/http.go: GRPCCode, HTTPStatus, ToStatus,
--                          FromGRPC, httpForCode.
--   Auth                   HasRole of pkg/auth/auth.go, RequireRole of pkg/grpcx/interceptors.go.
--   Kafka                  pkg/kafka/kafka.go: the consumer with WithDeadLetter, handleRecord,
--                          dispatch, retryInPlace, parkInPlace, handleFetches and Run.
--   Kafka.Outbox           pkg/kafka/outbox.go: drainOnce and drainUntilEmpty.
--   Inventory              services/inventory/internal/store/store.go: EnsureStockRow, Reserve,
--                          Commit, Release, AdjustStock, ExpireDue. Sums to Sweep are its proofs.
--   Inventory.Server       services/inventory/internal/grpcsvc/server.go: the handlers.
--   Pricing                services/pricing/internal/domain: money.go, and Price of quote.go.
--   Cart, Cart.Server      services/cart/internal/domain/cart.go, and the handlers of
--                          services/cart/internal/grpcsvc/server.go.
--   Payment                services/payment/internal/store/store.go: Create, Get, Transition, Refund.
--   Payment.Server         services/payment/internal/grpcsvc/server.go, with toProto.
--   Order                  services/order/internal/domain/order.go: the state machine, ShopGroups.
--   Order.Store            services/order/internal/store/store.go: Insert, Get, Apply,
--                          ApplyShipmentDelivered, with the deduplication of events.
--   Order.Keys             services/order/internal/store/idempotency.go: the claims on keys. Its
--                          Histories are lists of calls with their times.
--   Order.Returns          services/order/internal/domain/return.go (Decide), and InsertReturn,
--                          GetReturn, ReturnedQty, DecideReturn, UnrestockedLines, MarkRestocked of
--                          services/order/internal/store/returns.go.
--   Order.Returns.Requests RequestReturn of services/order/internal/saga/returns.go.
--   Order.Saga             services/order/internal/saga/saga.go: ReleaseReservation, VoidPayment, and
--                          the marks of services/order/internal/store/compensation.go.
--   Order.Saga.Checkout    CreateOrder of the saga, in stages; Accounts is what it leaves behind.
--   Order.Saga.Events      OnPaymentAuthorized, OnPaymentFailed, OnShipmentDelivered,
--                          OnReservationExpired, CompensateCancelled.
--   Order.Saga.Sweeper     services/order/internal/reconcile/reconciler.go: Sweep, with
--                          PendingCompensations of the store.
--   Order.Saga.Consumer    services/order/internal/consumer/consumer.go: Handler.
--   Order.Saga.Refunding   DecideReturn of services/order/internal/saga/returns.go.
--   Fulfillment            services/fulfillment/internal/domain/shipment.go, and CreateFromOrder, Get
--                          and Transition of services/fulfillment/internal/store/store.go.
--   Fulfillment.Carrier    DueForAdvance of that store, services/fulfillment/internal/carrier/
--                          advancer.go, the handlers of services/fulfillment/internal/grpcsvc/
--                          server.go and services/fulfillment/internal/consumer/consumer.go.
--   Payout                 services/payout/internal/domain/payout.go, CreateFromOrder, Get,
--                          DuePayoutIDs and MarkPaid (here `pay`) of services/payout/internal/store/
--                          store.go, services/payout/internal/settlement/sweeper.go, and groupsFrom
--                          and Handler of services/payout/internal/consumer/consumer.go.
-- The modules named Tests hold runs at concrete inputs.
--
-- How state is modelled. The tables of a service are one record, `Db`; a table with a key is an
-- association list, and a SQL statement is an update of it, with its constraints (a CHECK, a primary
-- key, a unique index, the range of an INTEGER column) written out as errors. A method that opens a
-- transaction is a function from tables to tables and an outcome; an error leaves the tables as they
-- were. Transactions run one after the other: each history is a list of calls. Where the code takes
-- no row lock (Apply of the order store), interleavings of two transactions are outside the model.
--
-- The calls between services. What the saga asks of cart, pricing, inventory and payment is a list of
-- calls with their answers, the last one first, and each service is a function from that list and the
-- request to an answer, so that an answer may depend on all that was asked before.
--
-- Numbers. Amounts are cents in int64 and quantities are int32, each sum and product wrapped where
-- Go wraps it; the columns' ranges are checked where the database checks them. Loops over lists are
-- structural recursion. Three loops have no bound of their own and run on fuel: retryInPlace and
-- parkInPlace of the consumer, whose result is `none` when it runs out (`Kafka.Ending` says how much is
-- enough), and drainUntilEmpty of the relay, where the fuel is the number of passes that are followed.
--
-- Parameters. SHA-256 and FormatInt (Pricing), uuid.Parse (Inventory, Cart, Order; in
-- Fulfillment and Payout what a UUID column takes),
-- status.FromError and Code.String of grpc (Errs), and proto.Unmarshal and the decimal form of
-- integers (Order.Saga.Consumer) are arguments; ids that are drawn and the clock
-- are arguments of the calls that read them.
--
-- Not modelled: an id of a payment that is no UUID (its query fails, and here it is not found), a
-- publish that the broker took though it answered an error, failures of connections, the JSON, protobuf and text forms of messages, times that
-- are only recorded (updated_at), the messages for people and the metadata of errors, and the
-- services and packages that have no module here.
pub mod Common
pub mod Errs
pub mod Auth
pub mod Inventory
pub mod Kafka
pub mod Pricing
pub mod Cart
pub mod Payment
pub mod Order
pub mod Fulfillment
pub mod Payout
