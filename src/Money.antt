-- ===== src/Money.antt =====
-- Amounts of NIM: application/event/usecase/events.go (prices) and
-- application/paymentrequest/usecase/request.go (amounts), below backend/internal. One NIM is
-- 100,000 Luna, and a text has at most five decimal places.
pub mod Decimal
pub mod Amounts
pub mod Printed
pub mod RoundTrip
