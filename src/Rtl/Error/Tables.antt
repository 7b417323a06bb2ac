-- ===== src/Rtl/Error/Tables.antt =====
-- The tables of nboxkrnl/rtl/error.cpp: the short ones. An entry is the value that nboxkrnl/winerror.hpp or
-- nboxkrnl/ntstatus.hpp gives to the name in the source.
use nboxkrnl.Prelude.{ℕ, List, [], ◌∷◌}

unfoldable pub table_00000102 : List ℕ
table_00000102 =
    1460 ∷ 997 ∷ 0 ∷ 234 ∷ 1300 ∷ 1301 ∷ 0 ∷ 0 ∷ 0 ∷ 0 ∷ 1022 ∷ 1302 ∷ 0 ∷ 0 ∷ 0 ∷ 0 ∷ 0 ∷ 0 ∷ 0 ∷ 0
    ∷ 0 ∷ 0 ∷ 0 ∷ 0 ∷ 0 ∷ 0 ∷ 0 ∷ 0 ∷ 0 ∷ 0 ∷ 0 ∷ 8201 ∷ []

unfoldable pub table_40000002 : List ℕ
table_40000002 =
    87 ∷ 700 ∷ 0 ∷ 0 ∷ 1303 ∷ 0 ∷ 1120 ∷ 1014 ∷ 0 ∷ 0 ∷ 1121 ∷ 1304 ∷ 706 ∷ 707 ∷ 708 ∷ 709 ∷ 710
    ∷ 711 ∷ 712 ∷ 713 ∷ 714 ∷ 715 ∷ 716 ∷ 717 ∷ 718 ∷ 719 ∷ 0 ∷ 0 ∷ 0 ∷ 0 ∷ 0 ∷ 0 ∷ 0 ∷ 720 ∷ 721
    ∷ 722 ∷ []

unfoldable pub table_40000370 : List ℕ
table_40000370 = 8364 ∷ []

unfoldable pub table_40020056 : List ℕ
table_40020056 = 1824 ∷ []

unfoldable pub table_400200af : List ℕ
table_400200af = 1913 ∷ []

unfoldable pub table_80000001 : List ℕ
table_80000001 =
    0x80000001 ∷ 998 ∷ 0x80000003 ∷ 0x80000004 ∷ 234 ∷ 18 ∷ 0 ∷ 0 ∷ 0 ∷ 676 ∷ 1391 ∷ 0 ∷ 299 ∷ 28
    ∷ 21 ∷ 21 ∷ 170 ∷ 259 ∷ 254 ∷ 255 ∷ 255 ∷ 1110 ∷ 0 ∷ 0 ∷ 0 ∷ 259 ∷ 1101 ∷ 1110 ∷ 1111 ∷ 1100
    ∷ 1102 ∷ 0 ∷ 1103 ∷ 1104 ∷ 0 ∷ 0 ∷ 2402 ∷ 0 ∷ 4340 ∷ []

unfoldable pub table_80000288 : List ℕ
table_80000288 = 1165 ∷ 1166 ∷ []

unfoldable pub table_80090300 : List ℕ
table_80090300 =
    1450 ∷ 6 ∷ 1 ∷ 53 ∷ 1359 ∷ 1364 ∷ 288 ∷ 1364 ∷ 87 ∷ 87 ∷ 50 ∷ 1368 ∷ 1326 ∷ 87 ∷ 1312 ∷ 5 ∷ 5
    ∷ 1311 ∷ 0 ∷ 0 ∷ 0 ∷ 0 ∷ 1364 ∷ 1931 ∷ 1784 ∷ 0 ∷ 0 ∷ 0 ∷ 0 ∷ 0 ∷ 0 ∷ 0 ∷ 87 ∷ 122 ∷ 1396 ∷ 0
    ∷ 0 ∷ 1790 ∷ 87 ∷ 87 ∷ 1330 ∷ 6000 ∷ 0 ∷ 0 ∷ 0 ∷ 0 ∷ 0 ∷ 0 ∷ 6001 ∷ 1 ∷ 0 ∷ 0 ∷ 0 ∷ 0 ∷ 0 ∷ 0
    ∷ 0 ∷ 0 ∷ 0 ∷ 0 ∷ 0 ∷ 0 ∷ 0 ∷ 0 ∷ 0 ∷ 0 ∷ 0 ∷ 0 ∷ 0 ∷ 0 ∷ 0 ∷ 1368 ∷ []

unfoldable pub table_80092010 : List ℕ
table_80092010 = 1397 ∷ 0 ∷ 1397 ∷ 1397 ∷ []

unfoldable pub table_80096004 : List ℕ
table_80096004 = 1397 ∷ []

unfoldable pub table_80130001 : List ℕ
table_80130001 = 5061 ∷ 5062 ∷ 5063 ∷ 5064 ∷ 5065 ∷ []

unfoldable pub table_c0020001 : List ℕ
table_c0020001 =
    1700 ∷ 1701 ∷ 6 ∷ 1703 ∷ 1704 ∷ 1705 ∷ 1706 ∷ 1707 ∷ 1708 ∷ 1709 ∷ 1710 ∷ 1711 ∷ 1712 ∷ 1713
    ∷ 1714 ∷ 1715 ∷ 1716 ∷ 1717 ∷ 1718 ∷ 1719 ∷ 1720 ∷ 1721 ∷ 1722 ∷ 1723 ∷ 1724 ∷ 1725 ∷ 1726
    ∷ 1727 ∷ 1728 ∷ 0 ∷ 1730 ∷ 0 ∷ 1732 ∷ 1733 ∷ 1734 ∷ 1735 ∷ 1736 ∷ 1737 ∷ 0 ∷ 1739 ∷ 1740 ∷ 1741
    ∷ 1742 ∷ 1743 ∷ 1744 ∷ 1745 ∷ 1746 ∷ 1747 ∷ 1748 ∷ 1749 ∷ 1750 ∷ 1751 ∷ 1752 ∷ 1753 ∷ 1754
    ∷ 1755 ∷ 1756 ∷ 1757 ∷ 1758 ∷ 1759 ∷ 1760 ∷ 1761 ∷ 1762 ∷ 1763 ∷ 1764 ∷ 1765 ∷ 1766 ∷ 1767
    ∷ 1768 ∷ 1769 ∷ 1770 ∷ 1771 ∷ 1791 ∷ 1806 ∷ 1898 ∷ 1899 ∷ 1900 ∷ 0 ∷ 1817 ∷ 1818 ∷ 1819 ∷ 1820
    ∷ 1821 ∷ 1822 ∷ 1823 ∷ 0 ∷ 1825 ∷ 1826 ∷ 0 ∷ 0 ∷ 0 ∷ 0 ∷ 0 ∷ 0 ∷ 0 ∷ 0 ∷ 0 ∷ 1914 ∷ 1915 ∷ []

unfoldable pub table_c0030001 : List ℕ
table_c0030001 = 1772 ∷ 1773 ∷ 1774 ∷ 6 ∷ 6 ∷ 1777 ∷ 1778 ∷ 1779 ∷ 1780 ∷ 1781 ∷ 1782 ∷ 1783 ∷ []

unfoldable pub table_c0030059 : List ℕ
table_c0030059 = 1827 ∷ 1828 ∷ 1829 ∷ 1830 ∷ 1831 ∷ 1832 ∷ 1916 ∷ 1917 ∷ 1918 ∷ []

unfoldable pub table_c00a0001 : List ℕ
table_c00a0001 =
    7001 ∷ 7002 ∷ 7003 ∷ 0 ∷ 0 ∷ 7007 ∷ 7008 ∷ 7009 ∷ 7010 ∷ 7011 ∷ 7012 ∷ 7013 ∷ 7014 ∷ 7015 ∷ 7016
    ∷ 7017 ∷ 0 ∷ 7055 ∷ 7054 ∷ 7056 ∷ 7022 ∷ 7023 ∷ 7024 ∷ 7025 ∷ 0 ∷ 0 ∷ 0 ∷ 0 ∷ 0 ∷ 0 ∷ 0 ∷ 0 ∷ 0
    ∷ 7035 ∷ 0 ∷ 7038 ∷ 0 ∷ 7040 ∷ 7041 ∷ 7042 ∷ 0 ∷ 7044 ∷ 7045 ∷ 0 ∷ 0 ∷ 7049 ∷ 7004 ∷ 7050 ∷ 7051
    ∷ 0 ∷ 7053 ∷ 7052 ∷ 7058 ∷ 7057 ∷ []

unfoldable pub table_c0130001 : List ℕ
table_c0130001 =
    5039 ∷ 5040 ∷ 5041 ∷ 5042 ∷ 5043 ∷ 5044 ∷ 5045 ∷ 5046 ∷ 5047 ∷ 5048 ∷ 5049 ∷ 5050 ∷ 5051 ∷ 5052
    ∷ 5053 ∷ 5054 ∷ 0 ∷ 5056 ∷ 5070 ∷ 5058 ∷ 5059 ∷ 5060 ∷ []

unfoldable pub table_c0150001 : List ℕ
table_c0150001 =
    14000 ∷ 14001 ∷ 14002 ∷ 14003 ∷ 14004 ∷ 14005 ∷ 14006 ∷ 14007 ∷ 14008 ∷ 14009 ∷ 14010 ∷ 14081
    ∷ 0 ∷ 14011 ∷ 14084 ∷ 14085 ∷ 14086 ∷ 14089 ∷ 14087 ∷ 14082 ∷ 14083 ∷ 14090 ∷ 14091 ∷ 14092
    ∷ 14093 ∷ 14098 ∷ 14028 ∷ 14101 ∷ 14102 ∷ 14103 ∷ 14104 ∷ 14099 ∷ 14100 ∷ 14105 ∷ 14106 ∷ 14107
    ∷ 14108 ∷ 14109 ∷ 14110 ∷ []
