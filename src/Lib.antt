-- ===== src/Lib.antt =====
-- The parking API: pricing, slots, bookings and payments.
--
-- The program is a service over a relational database. A driver asks for a quote, which prices a
-- stay under a tariff plan; creates a booking, which holds a slot of a facility and opens a payment
-- with a provider; confirms it, which captures the payment; and may cancel it, which may refund it.
-- Staff check a stay in and out, or a ticket is scanned at the barrier. The provider's webhooks move
-- payments and bookings as well. Operators and drivers hold subscriptions, which the billing provider's
-- deliveries move; an operator's subscription limits what it may create.
--
-- Prelude, Prelude/*: the shared names, Boolean tests, association lists, a stable sort, integers.
--
-- Tariff (src/tariff): Types is tariff.types.ts; Engine, Caps and Stay are pricing-engine.ts
-- (`tierAt` is tier_at, `windowAt` is window_at, the loop of `priceStay` is charges_from with
-- charge_at as its body, `applyCaps` is apply_caps, `coalesce` is coalesce, `priceStay` is
-- price_stay); Schedule is schedule-validation.ts; Draft is draft-compiler.ts with `compilePlan`,
-- `validateDraft` and `simulate` of tariff.service.ts. The time zone library is a parameter, a
-- function from a zone, an instant and a number of minutes to a wall clock; what is asked of it is
-- that a reading has a weekday from 1 to 7, an hour below 24 and a minute below 60. The loop has
-- fuel for as many rounds as there are billable minutes, which is enough since each round moves the
-- cursor. Minutes and cents are natural numbers, as the schemas demand; the largest products, a
-- year's minutes by a rate or a total by ten thousand, are taken to be exact as they are in a double
-- of 53 bits for any price below a billion cents. Line items are signed.
--
-- Store (prisma/schema.prisma): the columns that the handlers read and write, as records; a table is
-- the list of its rows; Store/Monad has the handlers' results, which return or throw and leave tables
-- behind in both cases, with transactions that roll back. Ids and codes are numbers. What the
-- provider answers, what the database and the generators mint, and the clock are arguments; where the
-- code awaits between two commits, what other requests commit there is an argument, a function on
-- the tables.
--
-- Inventory (src/inventory/inventory.service.ts): `countOverlappingBookings`, `checkAvailability`,
-- `holdSlot` (one step, by its row lock) and `releaseExpiredHolds`; Grouped has
-- `countOverlappingByFacility`.
--
-- Booking (src/booking/booking.service.ts): Access has `assertBookingAccess`, with `resolve` of
-- src/common/authz/operator-scope.service.ts and `assertScope` of
-- src/operators/operator-access.service.ts; Create has `createBooking`, `holdWithAccessCode` and
-- `replayBookingResult`; Confirm has `captureAndConfirm`; Cancel has `cancelBooking`,
-- `refundAndCancel` and `recordRefundFailure`; Stay has `checkIn`, `checkOut` and `repriceStay`.
--
-- PaymentEvents (src/booking/payment-events.service.ts): `classify` and the handlers; Process has
-- `process`.
--
-- Ticket: Payload is src/booking/qr-ticket.ts (`buildQrPayload`, `parseQrPayload`, with the pattern as
-- tests on characters; `isWithinSkewWindow` too), Credentials is `generateAccessCode` of
-- src/booking/credentials.ts (the buffer's shifts and masks on its unsigned value, its inner loop by
-- recursion on the bits left), Replay is src/booking/qr-replay.cache.ts and Scan is
-- src/booking/ticket.service.ts (`issue`, `verifyQr`, `verifyAccessCode` and the check-in of a scan).
-- The keyed hash is a parameter, a function from a secret and a text to the digest in base64url. Redis
-- is a parameter with its state, the command and what its documentation says of it. Texts are lists of
-- bytes; ids are numbers in the tables and `id_text` gives their text.
--
-- Subscription: the two event services of src/subscriptions, operator-subscription-events.service.ts
-- and driver-subscription-events.service.ts, are one text up to the names of tables, so Events has
-- one model with the side as parameter, and Driver is it at the drivers' side. A desk is the tables of a
-- side; Writes has its writes with their unique keys, and errors that roll back. Entitlements is
-- entitlement.service.ts with entitlements.schema.ts: the effective entitlements, the usage and the
-- quota checks.
--
-- Tariff/Quote has the quotes of src/tariff/tariff.service.ts: `computeQuote`, `priceWithPinnedPlan`,
-- `computeTotalsByFacility` and `facilitiesWithApplicablePlan`. Tariff/Plans has the transactions of
-- `createPlan`, `updatePlan`, `deletePlan` and `guardDefaultRemoval`, without the names, the validity
-- windows, the managers and the audit of plans; Tariff/Plans/Lifecycle has `archiveTariffPlan`,
-- `tombstoneTariffPlan` and `restoreTariffPlan` of src/lifecycle/lifecycle.service.ts.
--
-- Archive: the facilities, operators and users of src/lifecycle/lifecycle.service.ts, with
-- `unhonouredBookingsWhere` of src/booking/booking.predicates.ts.
--
-- Lifecycle: how a booking's row may change, over each of these handlers and, in Runs, over sequences of
-- them, where Scans adds the barrier. Examples: the theorems at concrete values, and runs of the code.
--
-- Not modelled: analytics, the lists and other reads, which change no state; the delivery of
-- notifications, identities and the ingestion of maps, which are mostly calls of outside services; and
-- the administration of subscriptions, the assignments of plans, the other changes of facilities, the
-- purge and its approvals, invitations and members, of which the parts above see only the rows that they leave.
-- The status history keeps no notes, the audit log no
-- payloads.
pub mod Prelude
pub mod Tariff
pub mod Store
pub mod Inventory
pub mod Booking
pub mod PaymentEvents
pub mod Lifecycle
pub mod Ticket
pub mod Subscription
pub mod Archive
pub mod Examples
