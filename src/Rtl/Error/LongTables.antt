-- ===== src/Rtl/Error/LongTables.antt =====
-- The tables of nboxkrnl/rtl/error.cpp: the two long ones, in parts. An entry is the value that nboxkrnl/winerror.hpp or
-- nboxkrnl/ntstatus.hpp gives to the name in the source.
use nboxkrnl.Prelude.{ℕ, List, [], ◌∷◌, ◌++◌}

unfoldable pub table_c0000001_first : List ℕ
table_c0000001_first =
    31 ∷ 1 ∷ 87 ∷ 24 ∷ 998 ∷ 999 ∷ 1454 ∷ 6 ∷ 1001 ∷ 193 ∷ 87 ∷ 0 ∷ 87 ∷ 2 ∷ 2 ∷ 1 ∷ 38 ∷ 34 ∷ 21
    ∷ 1785 ∷ 27 ∷ 234 ∷ 8 ∷ 487 ∷ 487 ∷ 87 ∷ 87 ∷ 1 ∷ 1 ∷ 5 ∷ 5 ∷ 193 ∷ 5 ∷ 5 ∷ 122 ∷ 6 ∷ 0xc0000025
    ∷ 0xc0000026 ∷ 0 ∷ 0 ∷ 0 ∷ 158 ∷ 0xc000002b ∷ 487 ∷ 487 ∷ 0 ∷ 0 ∷ 87 ∷ 0 ∷ 1393 ∷ 123 ∷ 2 ∷ 183
    ∷ 0 ∷ 6 ∷ 0 ∷ 161 ∷ 3 ∷ 161 ∷ 1117 ∷ 1117 ∷ 23 ∷ 23 ∷ 8 ∷ 5 ∷ 6 ∷ 32 ∷ 1816 ∷ 87 ∷ 288 ∷ 298
    ∷ 87 ∷ 87 ∷ 156 ∷ 5 ∷ 87 ∷ 87 ∷ 87 ∷ 282 ∷ 255 ∷ 1392 ∷ 1392 ∷ 1392 ∷ 33 ∷ 33 ∷ 5 ∷ 50 ∷ 1305
    ∷ 1306 ∷ 1307 ∷ 1308 ∷ 1309 ∷ 1310 ∷ 1311 ∷ 1312 ∷ 1313 ∷ 1314 ∷ 1315 ∷ 1316 ∷ 1317 ∷ 1318
    ∷ 1319 ∷ 1320 ∷ 1321 ∷ 1322 ∷ 86 ∷ 1324 ∷ 1325 ∷ 1326 ∷ 1327 ∷ 1328 ∷ 1329 ∷ 1330 ∷ 1331 ∷ 1332
    ∷ 1333 ∷ 1334 ∷ 1335 ∷ 1336 ∷ 1337 ∷ 1338 ∷ 127 ∷ 193 ∷ 1008 ∷ 1340 ∷ 158 ∷ 112 ∷ 1341 ∷ 1342
    ∷ 68 ∷ 259 ∷ 1343 ∷ 259 ∷ 154 ∷ 14 ∷ 487 ∷ 1812 ∷ 1813 ∷ 1814 ∷ 0xc000008c ∷ []

unfoldable pub table_c0000001_second : List ℕ
table_c0000001_second =
    0xc000008d ∷ 0xc000008e ∷ 0xc000008f ∷ 0xc0000090 ∷ 0xc0000091 ∷ 0xc0000092 ∷ 0xc0000093
    ∷ 0xc0000094 ∷ 534 ∷ 0xc0000096 ∷ 8 ∷ 1006 ∷ 1344 ∷ 1450 ∷ 3 ∷ 23 ∷ 1167 ∷ 21 ∷ 487 ∷ 487 ∷ 1453
    ∷ 19 ∷ 21 ∷ 1345 ∷ 1346 ∷ 1347 ∷ 1348 ∷ 1349 ∷ 87 ∷ 0 ∷ 231 ∷ 231 ∷ 230 ∷ 231 ∷ 1 ∷ 233 ∷ 232
    ∷ 535 ∷ 536 ∷ 230 ∷ 121 ∷ 38 ∷ 0 ∷ 0 ∷ 0 ∷ 5 ∷ 50 ∷ 51 ∷ 52 ∷ 53 ∷ 54 ∷ 55 ∷ 56 ∷ 57 ∷ 58 ∷ 59
    ∷ 60 ∷ 61 ∷ 62 ∷ 63 ∷ 64 ∷ 65 ∷ 66 ∷ 67 ∷ 68 ∷ 69 ∷ 70 ∷ 71 ∷ 72 ∷ 88 ∷ 0 ∷ 17 ∷ 5 ∷ 240 ∷ 1350
    ∷ 0 ∷ 232 ∷ 1351 ∷ 0 ∷ 1352 ∷ 1353 ∷ 1354 ∷ 1355 ∷ 1356 ∷ 1357 ∷ 300 ∷ 301 ∷ 1358 ∷ 1359 ∷ 1360
    ∷ 1361 ∷ 1784 ∷ 0 ∷ 0 ∷ 0 ∷ 0 ∷ 1362 ∷ 1363 ∷ 87 ∷ 87 ∷ 87 ∷ 87 ∷ 87 ∷ 87 ∷ 87 ∷ 87 ∷ 87 ∷ 87
    ∷ 87 ∷ 87 ∷ 3 ∷ 1056 ∷ 1001 ∷ 1364 ∷ 0 ∷ 203 ∷ 145 ∷ 1392 ∷ 267 ∷ 1365 ∷ 1366 ∷ 206 ∷ 2401
    ∷ 2404 ∷ 317 ∷ 5 ∷ 1367 ∷ 0 ∷ 1368 ∷ 1056 ∷ 0 ∷ 0 ∷ 0 ∷ 0 ∷ 0 ∷ 0 ∷ 0 ∷ 0 ∷ 1444 ∷ 561 ∷ []

unfoldable pub table_c0000001_third : List ℕ
table_c0000001_third =
    563 ∷ 564 ∷ 193 ∷ 1369 ∷ 1370 ∷ 1006 ∷ 4 ∷ 995 ∷ 5 ∷ 1210 ∷ 5 ∷ 1371 ∷ 1372 ∷ 1373 ∷ 1374 ∷ 6
    ∷ 0 ∷ 0 ∷ 1375 ∷ 0 ∷ 1455 ∷ 193 ∷ 193 ∷ 193 ∷ 193 ∷ 0 ∷ 1398 ∷ 0 ∷ 126 ∷ 570 ∷ 571 ∷ 182 ∷ 127
    ∷ 572 ∷ 64 ∷ 64 ∷ 51 ∷ 59 ∷ 59 ∷ 59 ∷ 59 ∷ 1114 ∷ 573 ∷ 574 ∷ 575 ∷ 576 ∷ 578 ∷ 124 ∷ 86 ∷ 579
    ∷ 109 ∷ 1009 ∷ 1016 ∷ 580 ∷ 1005 ∷ 1118 ∷ 1376 ∷ 1377 ∷ 1378 ∷ 1379 ∷ 1380 ∷ 1381 ∷ 1382 ∷ 1383
    ∷ 1007 ∷ 1384 ∷ 1385 ∷ 1017 ∷ 1386 ∷ 581 ∷ 1117 ∷ 0 ∷ 0 ∷ 1113 ∷ 0 ∷ 0 ∷ 1122 ∷ 1123 ∷ 1124
    ∷ 1125 ∷ 1126 ∷ 1127 ∷ 1128 ∷ 1119 ∷ 1117 ∷ 0 ∷ 0 ∷ 0 ∷ 0 ∷ 1105 ∷ 1106 ∷ 1107 ∷ 1108 ∷ 1109
    ∷ 1129 ∷ 1112 ∷ 0 ∷ 1387 ∷ 1388 ∷ 1018 ∷ 1019 ∷ 1389 ∷ 1390 ∷ 1020 ∷ 1021 ∷ 87 ∷ 1117 ∷ 22
    ∷ 1117 ∷ 1117 ∷ 0 ∷ 1502 ∷ 19 ∷ 1786 ∷ 1787 ∷ 1788 ∷ 1789 ∷ 1500 ∷ 1501 ∷ 1790 ∷ 0 ∷ 1792 ∷ 1793
    ∷ 1131 ∷ 1219 ∷ 1220 ∷ 1503 ∷ 1807 ∷ 1808 ∷ 1809 ∷ 1810 ∷ []

unfoldable pub table_c0000001 : List ℕ
unfolding table_c0000001_first table_c0000001_second table_c0000001_third
table_c0000001 = table_c0000001_first ++ (table_c0000001_second ++ (table_c0000001_third))

unfoldable pub table_c0000202_first : List ℕ
table_c0000202_first =
    1394 ∷ 59 ∷ 1815 ∷ 1130 ∷ 1784 ∷ 1214 ∷ 1214 ∷ 68 ∷ 52 ∷ 64 ∷ 64 ∷ 64 ∷ 68 ∷ 59 ∷ 59 ∷ 59 ∷ 59
    ∷ 59 ∷ 59 ∷ 59 ∷ 50 ∷ 50 ∷ 0 ∷ 0 ∷ 0 ∷ 0 ∷ 6118 ∷ 0 ∷ 0 ∷ 0 ∷ 1132 ∷ 193 ∷ 0 ∷ 0 ∷ 1907 ∷ 1168
    ∷ 0 ∷ 0 ∷ 0 ∷ 87 ∷ 5010 ∷ 5010 ∷ 0 ∷ 1237 ∷ 0 ∷ 0 ∷ 1170 ∷ 0 ∷ 0 ∷ 1908 ∷ 1909 ∷ 6 ∷ 1225 ∷ 1226
    ∷ 1227 ∷ 1228 ∷ 1229 ∷ 1230 ∷ 1231 ∷ 1232 ∷ 1233 ∷ 1234 ∷ 1235 ∷ 1236 ∷ 0 ∷ 1224 ∷ 0 ∷ 0 ∷ 1238
    ∷ 1239 ∷ 1240 ∷ 193 ∷ 0 ∷ 0 ∷ 0 ∷ 0 ∷ 0 ∷ 0 ∷ 0 ∷ 0 ∷ 0 ∷ 1236 ∷ 0 ∷ 0 ∷ 0 ∷ 1232 ∷ 0 ∷ 1395 ∷ 0
    ∷ 0 ∷ 0 ∷ 0 ∷ 1058 ∷ 0 ∷ 0 ∷ 0 ∷ 182 ∷ 127 ∷ 288 ∷ 1142 ∷ 0 ∷ 4350 ∷ 0 ∷ 0 ∷ 7054 ∷ 0 ∷ 2001
    ∷ 1201 ∷ 21 ∷ 0 ∷ 0 ∷ 0 ∷ 1169 ∷ 0 ∷ 0 ∷ 4390 ∷ 4393 ∷ 4394 ∷ 4392 ∷ 1920 ∷ 0 ∷ 0 ∷ 0 ∷ 0 ∷ 0
    ∷ 0 ∷ 1921 ∷ 161 ∷ 0 ∷ 1160 ∷ 1161 ∷ 1162 ∷ 1163 ∷ 1164 ∷ 0 ∷ 0 ∷ 5 ∷ 5 ∷ 0 ∷ 5 ∷ []

unfoldable pub table_c0000202_second : List ℕ
table_c0000202_second =
    5 ∷ 5 ∷ 5 ∷ 6007 ∷ 6008 ∷ 6002 ∷ 0 ∷ 4200 ∷ 4201 ∷ 4202 ∷ 4203 ∷ 8218 ∷ 8219 ∷ 8220 ∷ 1 ∷ 4351
    ∷ 4352 ∷ 1172 ∷ 0 ∷ 8202 ∷ 8203 ∷ 8204 ∷ 8205 ∷ 8206 ∷ 8207 ∷ 8208 ∷ 8209 ∷ 8210 ∷ 8211 ∷ 8212
    ∷ 8213 ∷ 8214 ∷ 8215 ∷ 8216 ∷ 8217 ∷ 8478 ∷ 4391 ∷ 0 ∷ 0 ∷ 0 ∷ 1617 ∷ 1178 ∷ 1179 ∷ 0 ∷ 0 ∷ 0
    ∷ 0 ∷ 0 ∷ 0 ∷ 0 ∷ 0 ∷ 8228 ∷ 0 ∷ 1397 ∷ 0 ∷ 998 ∷ 4213 ∷ 4214 ∷ 0 ∷ 1261 ∷ 4328 ∷ 8504 ∷ 1251
    ∷ 8505 ∷ 0 ∷ 1181 ∷ 8506 ∷ 0 ∷ 0 ∷ 0 ∷ 8513 ∷ 8514 ∷ 8515 ∷ 8516 ∷ 8517 ∷ 8518 ∷ 8519 ∷ 8520
    ∷ 8521 ∷ 50 ∷ 0 ∷ 8529 ∷ 8530 ∷ 8531 ∷ 8532 ∷ 8541 ∷ 8547 ∷ 8548 ∷ 8549 ∷ 8557 ∷ 0 ∷ 1399 ∷ 82
    ∷ 0 ∷ 8561 ∷ 8562 ∷ 0x80090333 ∷ 0x80090334 ∷ 2 ∷ 0x80090335 ∷ 0x80090336 ∷ 0x80090337
    ∷ 0x80090338 ∷ 0x80090339 ∷ 0x8009033a ∷ 0x8009033b ∷ 0x8009033c ∷ 0x8009033d ∷ 0x8009033e
    ∷ 0x80090340 ∷ 0x80090341 ∷ 0x80090342 ∷ 1115 ∷ 1255 ∷ 1254 ∷ 4207 ∷ 4212 ∷ 4206 ∷ 302
    ∷ 0x80030305 ∷ 0x80030306 ∷ 0x80030307 ∷ 0x80030308 ∷ 0x80030309 ∷ 0x8003030a ∷ 0x8003030b ∷ 0
    ∷ 0 ∷ 0 ∷ 0 ∷ 0 ∷ 0 ∷ 0 ∷ 0 ∷ 0 ∷ 0 ∷ 0 ∷ 0 ∷ 0 ∷ 0 ∷ []

unfoldable pub table_c0000202_third : List ℕ
table_c0000202_third =
    0 ∷ 0 ∷ 0 ∷ 0 ∷ 0 ∷ 0 ∷ 1263 ∷ 1264 ∷ 0x80090348 ∷ 0 ∷ 0 ∷ 0 ∷ 0 ∷ 0 ∷ 0 ∷ 0 ∷ 0 ∷ 0 ∷ 0 ∷ 0 ∷ 0
    ∷ 0 ∷ 0 ∷ 0 ∷ 0 ∷ 0 ∷ 0 ∷ 0 ∷ 0 ∷ 0 ∷ 0 ∷ 0 ∷ 0 ∷ 0 ∷ 0 ∷ 0 ∷ 0 ∷ 0 ∷ 0 ∷ 0 ∷ 0 ∷ 0 ∷ 0 ∷ 0 ∷ 0
    ∷ 0 ∷ 0 ∷ 0 ∷ 0 ∷ 0 ∷ 0 ∷ 0 ∷ 0 ∷ 0 ∷ 1256 ∷ 0x80090343 ∷ 6013 ∷ 0 ∷ 0 ∷ 0 ∷ 0xc0090001 ∷ 8572
    ∷ 8578 ∷ 193 ∷ 193 ∷ 0x80090346 ∷ 1394 ∷ 0 ∷ 0 ∷ 0 ∷ 0 ∷ 1260 ∷ 1260 ∷ 1260 ∷ 1260 ∷ 0 ∷ 0 ∷ 0
    ∷ 0 ∷ 0 ∷ 0 ∷ 1275 ∷ 1275 ∷ 0 ∷ 0 ∷ 1276 ∷ 0 ∷ 0 ∷ 0 ∷ 0 ∷ 0 ∷ 0 ∷ 0 ∷ 0 ∷ 0 ∷ 0 ∷ 0 ∷ 0 ∷ 0 ∷ 0
    ∷ 0 ∷ 0 ∷ 0x8010006b ∷ 0x8010006c ∷ 0x8010006f ∷ 0x8010000c ∷ 0x8009000d ∷ 0x8010002c
    ∷ 0x80090016 ∷ 0x8010002f ∷ 1265 ∷ 0x80090351 ∷ 0x80090352 ∷ 0x80090353 ∷ 0x80090354
    ∷ 0x80090355 ∷ []

unfoldable pub table_c0000202 : List ℕ
unfolding table_c0000202_first table_c0000202_second table_c0000202_third
table_c0000202 = table_c0000202_first ++ (table_c0000202_second ++ (table_c0000202_third))
